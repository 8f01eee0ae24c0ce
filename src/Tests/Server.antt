-- ===== src/Tests/Server.antt =====
-- smpp/server.py at concrete inputs.
use wholesale_project.Base.{
  ℕ, ◌≡◌, ◌↔◌, ◌+◌, ◌*◌, ◌<◌, ◌≤◌, ◌^◌, ◌-◌, refl, true, none, some, [], ◌∷◌, ◌++◌, arith, codes,
  length, same,
}
use wholesale_project.Smpp.Pdu.Wire.{Text, Bytes, ok, err}
use wholesale_project.Smpp.Pdu.Encode.{encode}
use wholesale_project.Queues.Memory.{new_channel}
use wholesale_project.Ingress.Smpp as Ingress
use wholesale_project.Ingress.Smpp.{callback}
use wholesale_project.Ingress.Smpp.Accounting.{queued_ids, accepted, serve_accounted}
use wholesale_project.Smpp.Pdu.Types.{Bind, SubmitSm, Body, Pdu, command_id, empty_submit}
use wholesale_project.Smpp.Server.{
  Server, fresh, put_cred, authenticate, password_of, listed, tps_ok, count_bind, dispatch, serve,
}
use wholesale_project.Smpp.Pdu.Fields.{IsField}
use wholesale_project.Smpp.Server.Binds.{IsAdmitted, authenticate_exact}
use wholesale_project.Smpp.Server.Overlaps.{Overlap, Reach-BindsBounded}
use wholesale_project.Smpp.Server.Rate.{recent, Ordered, times_after, tps_ok_exact}
use wholesale_project.Smpp.Server.Connections as Connections
use wholesale_project.Smpp.Server.Connections.{bind_of, idle, Step, Reach, bound_to, Reach-binds}
use wholesale_project.Smpp.Server.Replies.{AnswersOnce, dispatch_answers, serve_fuel}

abbrev esme : Text
esme = codes "esme"

abbrev server : Server
server = fresh (record {
  credentials = (esme, codes "password") ∷ [];
  ip_allowlist = [];
  max_binds_per_system = 4;
  tps_per_system = 2000;
  system_id = codes "relay-smsc";
})

abbrev bind : Bind
bind = record {
  system_id = esme;
  password = codes "password";
  system_type = [];
  interface_version = 0x34;
  addr_ton = 0;
  addr_npi = 0;
  address_range = [];
}

abbrev bind_pdu : Pdu
bind_pdu = record { command_status = 0; sequence_number = 5; body = Body.bind_transceiver bind }

abbrev on_submit : SubmitSm → Text → ℕ → (ℕ × Text) × ℕ
on_submit sm id n = ((0, codes "1"), n + 1)

authenticate_exact_example : (authenticate server bind (codes "10.0.0.1") ≡ 0) ↔ (
    IsAdmitted server.config (codes "10.0.0.1")
    × (password_of esme server.config.credentials ≡ some (codes "password"))
    × ((server.creds esme).binds < 4))
authenticate_exact_example = authenticate_exact server bind (codes "10.0.0.1")

server-IsField : IsField 16 server.config.system_id
server-IsField = record {
  chars = (
    (omega arith, omega arith),
    (
      (omega arith, omega arith),
      (
        (omega arith, omega arith),
        (
          (omega arith, omega arith),
          (
            (omega arith, omega arith),
            (
              (omega arith, omega arith),
              (
                (omega arith, omega arith),
                (
                  (omega arith, omega arith),
                  ((omega arith, omega arith), ((omega arith, omega arith), tt)),
                ),
              ),
            ),
          ),
        ),
      ),
    ),
  );
  fits = omega arith;
}

on_submit-IsField :
    (sm : SubmitSm) (id : Text) (a : ℕ)
    → ((on_submit sm id a).0.0 < 2 ^ 32) × IsField 65 (on_submit sm id a).0.1
on_submit-IsField sm id a =
    (omega arith, record { chars = ((omega arith, omega arith), tt); fits = omega arith })

dispatch_answers_example :
    AnswersOnce 5
      (command_id bind_pdu.body)
      (dispatch on_submit server 0 bind_pdu (codes "10.0.0.1") none 0)
dispatch_answers_example =
    dispatch_answers on_submit server server-IsField on_submit-IsField 0 bind_pdu (codes "10.0.0.1")
      none 0 (omega arith)

-- The length 16, of a PDU whose other header bytes are cut off.
abbrev cut_off : Bytes
cut_off = 0 ∷ 0 ∷ 0 ∷ 16 ∷ []

serve_fuel_example :
    serve on_submit 5 (λ left. left) [] server 0 none cut_off
    ≡ serve on_submit 9 (λ left. left) [] server 0 none cut_off
serve_fuel_example =
    serve_fuel on_submit 5 9 (λ left. left) [] server 0 none cut_off (omega arith) (omega arith)

abbrev busy : Server
busy = put_cred server esme (record { binds = 1; submit_times = 100 ∷ 1500000 ∷ [] })

busy-Ordered : Ordered 2000000 (busy.creds esme).submit_times
unfolding same
busy-Ordered = (omega arith, (omega arith, tt), (omega arith, tt, tt))

tps_ok_exact_example :
    (((tps_ok busy esme 2000000).0 ≡ true)
      ↔ (1000 * length (recent 2000000 (busy.creds esme).submit_times) < 2000))
    × (((tps_ok busy esme 2000000).1.creds esme).submit_times
        ≡ times_after (tps_ok busy esme 2000000).0 2000000 (busy.creds esme).submit_times)
    × Ordered 2000000 ((tps_ok busy esme 2000000).1.creds esme).submit_times
tps_ok_exact_example = tps_ok_exact busy esme 2000000 (omega arith) busy-Ordered

abbrev submit : Pdu
submit = record {
  command_status = 0;
  sequence_number = 6;
  body =
      Body.submit_sm
        (record empty_submit { destination_addr = codes "40721"; short_message = codes "hi" });
}

abbrev sent_by : Pdu → Bytes
sent_by p = elim (encode p) [ ok bytes ↦ bytes | err e ↦ [] ]

abbrev ingress : Ingress.State × ℕ
ingress = (record { queue = new_channel 10; clock = none }, 0)

abbrev reads : ℕ → ℕ × ℕ × ℕ
reads n = (1000 + n, 7, 1000000)

serve_accounted_example :
    let (writes, (server, end)) =
      serve
        (callback reads)
        200
        (λ left. left)
        []
        server
        ingress
        (some esme)
        (sent_by submit ++ sent_by bind_pdu) in
    queued_ids end ≡ queued_ids ingress ++ accepted writes
serve_accounted_example =
    serve_accounted reads 200 (λ left. left) [] server ingress (some esme)
      (sent_by submit ++ sent_by bind_pdu)

bind-authenticated : authenticate server bind (codes "10.0.0.1") ≡ 0
unfolding authenticate password_of listed same
bind-authenticated = refl

-- A connection that has been bound, and one that has not.
abbrev connected : Connections.World ℕ
connected = record {
  server = count_bind server esme;
  app = 0;
  connections = idle (some esme) ∷ idle none ∷ [];
}

connected_reached : Reach on_submit server.config 0 connected
unfolding bind_of
connected_reached =
    Reach.later
      (Reach.later (Reach.later (Reach.later Reach.start Step.opens) Step.opens) (
        Step.begins [] none (idle none ∷ []) bind_pdu bind (codes "10.0.0.1") refl
          bind-authenticated))
      (Step.binds [] none esme (idle none ∷ []))

Reach-binds_example : bound_to esme connected.connections ≤ (connected.server.creds esme).binds
Reach-binds_example = Reach-binds on_submit esme server.config 0 connected_reached

connected-Overlap : Overlap on_submit esme 1 connected_reached
unfolding same connected_reached
connected-Overlap = ((((tt, omega arith), omega arith), omega arith), omega arith)

Reach-BindsBounded_example : (connected.server.creds esme).binds ≤ 4 + (1 - 1)
Reach-BindsBounded_example = Reach-BindsBounded on_submit esme 1 connected_reached connected-Overlap
