-- ===== src/Notif/History.antt =====
-- The history of notifications: crates/nx-notif/src/history.rs. What JSON a record becomes, which
-- lines of a file are text and which texts are records, and the length of a file, are serde's and the
-- standard library's.
pub mod Reopen
use nullxesos.Prelude.{
  ℕ, ◌-◌, ◌<◌, Bool, true, false, String, Option, none, some, List, [], ◌∷◌, ◌++◌, length, take,
  drop, filter_by, ltb, if◌then◌else◌,
}
use nullxesos.Notif.{Notif, Urgency, low, normal, critical}

abbrev pub history_cap : ℕ
history_cap = 1048576

abbrev pub kept : ℕ
kept = 256

pub record Record : Type 0 where
  pub id : ℕ
  pub app : String
  pub summary : String
  pub body : String
  pub urgency : ℕ
  pub received : ℕ

abbrev pub urgency_code : Urgency → ℕ
urgency_code low = 0
urgency_code normal = 1
urgency_code critical = 2

abbrev pub record_of : Notif → ℕ → Record
record_of n now = record {
  id = n.id;
  app = n.app_name;
  summary = n.summary;
  body = n.body;
  urgency = urgency_code n.urgency;
  received = now;
}

-- The last `k`, as `rev().take(k)` and `rev()` give them, or a `drain` of what stands before.
abbrev pub last_n {ℓ} : {A : Type ℓ} → ℕ → List A → List A
last_n k xs = drop (length xs - k) xs

-- How a rotation goes: the renaming fails, the new file cannot be opened, the old one cannot be read,
-- the copying stops after some lines, or all is well.
pub data RotateIo : Type 0 where
  rename_error open_error unreadable : RotateIo
  copy_error : ℕ → RotateIo
  copied : RotateIo

module _ (Line : Type 0) where
  pub record Serde : Type 0 where
    pub to_line : Record → Line
    pub is_text : Line → Bool
    pub from_line : Line → Option Record
    pub size : List Line → ℕ

  -- How the writing of a line goes: it fails, and leaves the file as given; the flush fails after it,
  -- or the seek; or a rotation, if one is due, goes as given.
  pub data AppendIo : Type 0 where
    write_error : List Line → AppendIo
    flush_error seek_error : AppendIo
    written : RotateIo → AppendIo

  -- `current` and `rotated` are the files at `path` and with the extension `.0`; `file` is the first,
  -- or else the second, after a rotation that failed half-way.
  pub record History : Type 0 where
    pub current : List Line
    pub rotated : List Line
    pub on_current : Bool
    pub cached : List Record

  abbrev pub file : History → List Line
  file h = if h.on_current then h.current else h.rotated

  abbrev pub set_file : History → List Line → History
  set_file h lines = record h {
    current = if h.on_current then lines else h.current;
    rotated = if h.on_current then h.rotated else lines;
  }

  -- The state afterwards, and whether it went well.
  unfoldable pub rotate : Serde → History → RotateIo → History × Bool
  rotate s h rename_error = (h, false)
  rotate s h open_error =
      (record h { current = []; rotated = h.current; on_current = false }, false)
  rotate s h unreadable = (record h { current = []; rotated = h.current; on_current = true }, true)
  rotate s h (copy_error n) = (
    record h {
      current = take n (last_n kept (filter_by s.is_text h.current));
      rotated = h.current;
      on_current = true;
    },
    false,
  )
  rotate s h copied = (
    record h {
      current = last_n kept (filter_by s.is_text h.current);
      rotated = h.current;
      on_current = true;
    },
    true,
  )

  abbrev pub push_cached : History → Record → History
  push_cached h rec =
      let cached' = h.cached ++ (rec ∷ []) in
      record h { cached = if ltb kept (length cached') then last_n kept cached' else cached' }

  unfoldable pub append : Serde → History → Notif → ℕ → AppendIo → History × Bool
  append s h n now (write_error left) = (set_file h left, false)
  append s h n now flush_error = (set_file h (file h ++ (s.to_line (record_of n now) ∷ [])), false)
  append s h n now seek_error = (set_file h (file h ++ (s.to_line (record_of n now) ∷ [])), false)
  append s h n now (written io) =
      let rec = record_of n now in
      let h' = set_file h (file h ++ (s.to_line rec ∷ [])) in
      let (h'', went_well) = rotate s h' io in
      if ltb history_cap (s.size (file h'))
      then (if went_well then (push_cached h'' rec, true) else (h'', false))
      else (push_cached h' rec, true)

  -- The loop of `open_or_create`, over the lines of the file.
  unfoldable pub load : Serde → List Record → List Line → List Record
  load s cached [] = cached
  load s cached (l ∷ ls) =
      let skipped = load s cached ls in
      elim (s.is_text l) [
        | false ↦ skipped
        | true ↦ elim (s.from_line l) [
          | none ↦ skipped
          | some rec ↦
              let pushed = cached ++ (rec ∷ []) in
              load s (if ltb kept (length pushed) then drop 1 pushed else pushed) ls
        ]
      ]

  -- `readable` says whether the file can be opened for reading.
  unfoldable pub open_or_create : Serde → List Line → List Line → Bool → History
  open_or_create s current rotated readable = record {
    current = current;
    rotated = rotated;
    on_current = true;
    cached = if readable then load s [] current else [];
  }
