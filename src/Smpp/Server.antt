-- ===== src/Smpp/Server.antt =====
-- smpp/server.py: the server that clients bind to. The dictionary of credential states is a function,
-- since `_cred` makes a default state for a system that it does not know. Times are microseconds, and
-- a rate is in thousandths of a submit per second. The callback `on_submit` is a parameter, with the
-- state that it changes.
pub mod Binds
pub mod Replies
pub mod Rate
pub mod Connections
pub mod Overlaps
use wholesale_project.Base.{
  ℕ, zero, suc, ◌+◌, ◌-◌, ◌*◌, ltb, leb, not, Bool, true, false, ◌&&◌, ◌||◌, Option, none, some,
  List, [], ◌∷◌, ◌++◌, length, take, drop, same, if◌then◌else◌,
}
use wholesale_project.Smpp.Constants.{CommandStatus, status_value}
use wholesale_project.Smpp.Pdu.Wire.{Text, Bytes, Result, ok, err, from_bytes}
use wholesale_project.Smpp.Pdu.Types.{Bind, BindResp, SubmitSm, Body, Pdu}
use wholesale_project.Smpp.Pdu.Encode.{encode}
use wholesale_project.Smpp.Pdu.Decode.{decode, max_pdu_size}

pub record ServerConfig : Type 0 where
  pub credentials : List (Text × Text)
  pub ip_allowlist : List Text
  pub max_binds_per_system : ℕ
  pub tps_per_system : ℕ
  pub system_id : Text

pub record CredState : Type 0 where
  pub binds : ℕ
  pub submit_times : List ℕ

pub record Server : Type 0 where
  pub config : ServerConfig
  pub creds : Text → CredState

abbrev pub fresh : ServerConfig → Server
fresh c = record { config = c; creds = λ _. record { binds = 0; submit_times = [] } }

abbrev pub put_cred : Server → Text → CredState → Server
put_cred s id c = record s { creds = λ other. if same id other then c else s.creds other }

-- `dict.get` of the credentials.
unfoldable pub password_of : Text → List (Text × Text) → Option Text
password_of id [] = none
password_of id ((j, p) ∷ rest) = if same j id then some p else password_of id rest

unfoldable pub listed : Text → List Text → Bool
listed ip [] = false
listed ip (j ∷ rest) = same ip j || listed ip rest

abbrev pub is_empty {ℓ} : {A : Type ℓ} → List A → Bool
is_empty [] = true
is_empty (x ∷ xs) = false

abbrev pub status : CommandStatus → ℕ
status c = status_value c

unfoldable pub authenticate : Server → Bind → Text → ℕ
authenticate s b peer_ip =
    if not (is_empty s.config.ip_allowlist) && not (listed peer_ip s.config.ip_allowlist)
    then status CommandStatus.esme_rbindfail
    else (elim (password_of b.system_id s.config.credentials) [
      | none ↦ status CommandStatus.esme_rinvsysid
      | some expected ↦
          if not (same expected b.password)
          then status CommandStatus.esme_rinvpaswd
          else if leb s.config.max_binds_per_system (s.creds b.system_id).binds
          then status CommandStatus.esme_rbindfail
          else status CommandStatus.esme_rok
    ])

abbrev pub second : ℕ
second = 1000000

-- `while times and now - times[0] > 1.0: times.popleft()`
unfoldable pub expire : ℕ → List ℕ → List ℕ
expire now [] = []
expire now (t ∷ times) =
    let rest = expire now times in if ltb second (now - t) then rest else t ∷ times

unfoldable pub tps_ok : Server → Text → ℕ → Bool × Server
tps_ok s id now =
    if leb s.config.tps_per_system 0
    then (true, s)
    else (let times = expire now (s.creds id).submit_times in
        if leb s.config.tps_per_system (1000 * length times)
        then (false, put_cred s id (record { binds = (s.creds id).binds; submit_times = times }))
        else (
          true,
          put_cred s id (record { binds = (s.creds id).binds; submit_times = times ++ (now ∷ []) }),
        ))

-- What one PDU leads to: the PDUs written, whether the connection ends, the system that it is bound
-- to, and the states of the server and of the callback.
pub record Outcome (σ : Type 0) : Type 0 where
  pub writes : List Pdu
  pub stop : Bool
  pub bound : Option Text
  pub server : Server
  pub app : σ

abbrev pub reply : ℕ → ℕ → Body → Pdu
reply command_status seq body = record {
  command_status = command_status;
  sequence_number = seq;
  body = body;
}

abbrev pub bind_resp : Server → BindResp
bind_resp s = record { system_id = s.config.system_id; tlvs = [] }

-- `GenericNack(command_status=ESME_RINVCMDLEN)`, with the default sequence number 0.
abbrev pub bad_length : Pdu
bad_length = reply (status CommandStatus.esme_rinvcmdlen) 0 Body.generic_nack

abbrev answer : {σ : Type 0} → Server → σ → Pdu → Bool → Option Text → Outcome σ
answer s a r stop bound = record {
  writes = r ∷ [];
  stop = stop;
  bound = bound;
  server = s;
  app = a;
}

-- Whether `pdu.encode()` in `_write` returns; the bind response is not encoded for a long `system_id`.
unfoldable pub is_encoded : Pdu → Bool
is_encoded p = elim (encode p) [ ok bytes ↦ true | err e ↦ false ]

-- `binds += 1`, behind the await of the response.
unfoldable pub count_bind : Server → Text → Server
count_bind s id =
    let c = s.creds id in
    put_cred s id (record { binds = c.binds + 1; submit_times = c.submit_times })

module _ {σ : Type 0} (on_submit : SubmitSm → Text → σ → (ℕ × Text) × σ) where
  -- A bind, when no other task changes the server during the await of the response; the interleavings are in
  -- Connections. An exception of `encode` ends the connection with the system that it was bound to.
  unfoldable pub handle_bind :
      Server → σ → Bind → (BindResp → Body) → ℕ → Text → Option Text → Outcome σ
  handle_bind s a b resp seq peer_ip bound =
      let st = authenticate s b peer_ip in
      let r = reply st seq (resp (bind_resp s)) in
      if not (is_encoded r)
      then record { writes = []; stop = true; bound = bound; server = s; app = a }
      else if leb st 0
      then record {
        writes = r ∷ [];
        stop = false;
        bound = some b.system_id;
        server = count_bind s b.system_id;
        app = a;
      }
      else record { writes = r ∷ []; stop = true; bound = none; server = s; app = a }

  -- The ids that `on_submit` gives are taken to fit the response, as ULIDs do.
  unfoldable pub handle_submit : Server → σ → SubmitSm → ℕ → Option Text → ℕ → Outcome σ
  handle_submit s a sm seq none now = record {
    writes = reply (status CommandStatus.esme_rinvbndsts) seq (Body.submit_sm_resp []) ∷ [];
    stop = false;
    bound = none;
    server = s;
    app = a;
  }
  handle_submit s a sm seq (some id) now =
      let (allowed, s') = tps_ok s id now in
      let ((st, message_id), a') = on_submit sm id a in
      if allowed
      then record {
        writes = reply st seq (Body.submit_sm_resp message_id) ∷ [];
        stop = false;
        bound = some id;
        server = s';
        app = a';
      }
      else record {
        writes = reply (status CommandStatus.esme_rthrottled) seq (Body.submit_sm_resp []) ∷ [];
        stop = false;
        bound = some id;
        server = s';
        app = a;
      }

  unfoldable pub dispatch_body : Server → σ → Body → ℕ → Text → Option Text → ℕ → Outcome σ
  unfolding handle_bind handle_submit
  dispatch_body s a (Body.bind_transmitter b) seq peer_ip bound now =
      handle_bind s a b Body.bind_transmitter_resp seq peer_ip bound
  dispatch_body s a (Body.bind_receiver b) seq peer_ip bound now =
      handle_bind s a b Body.bind_receiver_resp seq peer_ip bound
  dispatch_body s a (Body.bind_transceiver b) seq peer_ip bound now =
      handle_bind s a b Body.bind_transceiver_resp seq peer_ip bound
  dispatch_body s a (Body.submit_sm sm) seq peer_ip bound now = handle_submit s a sm seq bound now
  dispatch_body s a Body.enquire_link seq peer_ip bound now =
      answer s a (reply 0 seq Body.enquire_link_resp) false bound
  dispatch_body s a Body.unbind seq peer_ip bound now =
      answer s a (reply 0 seq Body.unbind_resp) true bound
  dispatch_body s a _ seq peer_ip bound now =
      answer s a (reply (status CommandStatus.esme_rinvcmdid) seq Body.generic_nack) false bound

  unfoldable pub dispatch : Server → σ → Pdu → Text → Option Text → ℕ → Outcome σ
  dispatch s a p peer_ip bound now = dispatch_body s a p.body p.sequence_number peer_ip bound now

  -- The `finally` of `_handle`: `binds -= 1` for the system that the connection is bound to (ℕ stops at
  -- 0, where Python's int goes below).
  unfoldable pub close : Server → Option Text → Server
  close s none = s
  close s (some id) =
      put_cred s id
        (record { binds = (s.creds id).binds - 1; submit_times = (s.creds id).submit_times })

  -- The loop of `_handle` over the bytes that the peer sends until it closes. Every round but the last
  -- reads 16 bytes or more, so that fuel above the number of bytes is enough (none is spent in vain).
  -- The clock gives the time of the round by the bytes left.
  unfoldable pub serve :
      ℕ → (ℕ → ℕ) → Text → Server → σ → Option Text → Bytes → List Pdu × (Server × σ)
  serve zero clock peer_ip s a bound bytes = ([], (close s bound, a))
  serve (suc fuel) clock peer_ip s a bound bytes =
      let size = from_bytes (take 4 bytes) in
      let frame = take size bytes in
      let rest = drop size bytes in
      let skipped = serve fuel clock peer_ip s a bound rest in
      if ltb (length bytes) 4
      then ([], (close s bound, a))
      else if ltb size 16 || ltb max_pdu_size size
      then (bad_length ∷ [], (close s bound, a))
      else if ltb (length bytes) size
      then ([], (close s bound, a))
      else (elim (decode frame) [
        | err e ↦ (bad_length ∷ skipped.0, skipped.1)
        | ok p ↦
            let o = dispatch s a p peer_ip bound (clock (length bytes)) in
            let (writes, end) = serve fuel clock peer_ip o.server o.app o.bound rest in
            if o.stop
            then (o.writes, (close o.server o.bound, o.app))
            else (o.writes ++ writes, end)
      ])
