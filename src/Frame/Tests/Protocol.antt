-- ===== src/Frame/Tests/Protocol.antt =====
-- Clients of the control protocol.
use nullxesos.Prelude.{◌≡◌, refl, ◌↔◌, ◌⊎◌, true, none, some, [], ◌∷◌}
use nullxesos.Ipc.{
  err, invalid_request, version_mismatch, lit, Envelope, Response, ok, request, response,
  request_envelope, protocol_version, message,
}
use nullxesos.Ipc
use nullxesos.Frame.Server.{Incoming, handled, answer, client_loop, line, hangup}
use nullxesos.Frame.Answers.{TakenUp, OtherVersion, IsReply, answer_lem}
use nullxesos.Frame.Answers.Served.{Served, client_loop_serves}
use nullxesos.Frame.Tests.{desk, config, busy}

abbrev asking : Incoming desk
asking = record {
  envelope = some (request_envelope 7 (Ipc.switch_workspace 2));
  refusal = [];
  fate = handled;
  loaded = config;
  writable = true;
}

abbrev garbled : Incoming desk
garbled = record asking { envelope = none; refusal = message "expected value" }

answer_lem_example :
    let after = answer desk busy garbled in
    ((after.1 ≡ err (invalid_request (lit "decode: " ∷ lit "expected value" ∷ [])))
      ↔ (garbled.envelope ≡ none))
    × ((after.1 ≡ err (version_mismatch (1 ∷ []))) ↔ OtherVersion desk garbled)
    × ((after.1 ≡ err (invalid_request (message "response on request socket")))
        ↔ IsReply desk garbled)
    × ((after.0 ≡ busy) ⊎ ((req : Ipc.Request) × TakenUp desk garbled req))
answer_lem_example = answer_lem desk busy garbled

client_loop_serves_example :
    let after = client_loop desk busy (line asking ∷ line garbled ∷ hangup ∷ line asking ∷ []) in
    Served desk busy (asking ∷ garbled ∷ []) after.1 after.0
client_loop_serves_example =
    client_loop_serves desk busy (asking ∷ garbled ∷ []) (hangup ∷ line asking ∷ [])
      (refl, (refl, tt)) tt
