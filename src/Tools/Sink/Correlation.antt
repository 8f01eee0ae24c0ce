-- ===== src/Tools/Sink/Correlation.antt =====
-- tools/smpp_sink.py and egress/smpp_connector.py: the receipt of a submit, from the sink to the connector.
use wholesale_project.Base.{
  ℕ, zero, suc, ◌+◌, ◌/◌, ◌%◌, ◌<◌, ltb, false, some, List, [], ◌∷◌, ◌++◌, ◌≡◌, inl, inr, refl, ◌∙◌,
  arith, codes, same, lookup, lookup-insert_self, Bool-cases,
}
use wholesale_project.Common.Numerals.{hex_digit, decimal, decimal_digits}
use wholesale_project.Egress.SmppConnector.{correlate}
use wholesale_project.Egress.SmppConnector.Receipts.{
  Receipts, is_space, find_stat, behind, search, provider_id, on_deliver_sm,
}
use wholesale_project.Egress.SmppConnector.Receipts.Search.{
  IsWord, IsId, IsDigits, find_stat-stat, find_stat-digits, find_id-blank,
}
use wholesale_project.Smpp.Pdu.Wire.{Text}
use wholesale_project.Smpp.Pdu.Types.{SubmitSm, Body}
use wholesale_project.Tools.Sink.{SinkConfig, hex_digits, format_id, reply}
use wholesale_project.Tools.Sink.Receipt.{receipt_text, receipt_of}

hex_digit-visible : (d : ℕ) → d < 16 → is_space (hex_digit d) ≡ false
unfolding is_space hex_digit
hex_digit-visible d h = ground arith

decimal-visible : (d : ℕ) → d < 10 → is_space (48 + d) ≡ false
unfolding is_space
decimal-visible d h = ground arith

IsId-append : (id : Text) (c : ℕ) → IsId id → is_space c ≡ false → IsId (id ++ (c ∷ []))
IsId-append [] c h v = absurd h
IsId-append (b ∷ []) c (hb, _) v = (hb, (v, tt))
IsId-append (b ∷ d ∷ id) c (hb, h) v = (hb, IsId-append (d ∷ id) c h v)

hex_digits-IsId : (f n : ℕ) → IsId (hex_digits f n)
unfolding hex_digits
hex_digits-IsId zero n = (hex_digit-visible (n % 16) (omega arith), tt)
hex_digits-IsId (suc f) n = elim (Bool-cases (ltb n 16)) [
  | inl small ↦ rw small (hex_digit-visible n (ground arith), tt)
  | inr large ↦ rw large (
      IsId-append (hex_digits f (n / 16)) (hex_digit (n % 16)) (hex_digits-IsId f (n / 16))
        (hex_digit-visible (n % 16) (omega arith)))
]

decimal_digits-IsId : (f n : ℕ) → IsId (decimal_digits f n)
unfolding decimal_digits
decimal_digits-IsId zero n = (decimal-visible (n % 10) (omega arith), tt)
decimal_digits-IsId (suc f) n = elim (Bool-cases (ltb n 10)) [
  | inl small ↦ rw small (decimal-visible n (ground arith), tt)
  | inr large ↦ rw large (
      IsId-append (decimal_digits f (n / 10)) (48 + n % 10) (decimal_digits-IsId f (n / 10))
        (decimal-visible (n % 10) (omega arith)))
]

format_id-IsId : (n : ℕ) (fmt : Text) → IsId (format_id n fmt)
unfolding format_id decimal
format_id-IsId n fmt = elim (Bool-cases (same fmt (codes "hex"))) [
  | inl hex ↦ rw hex (hex_digits-IsId n n)
  | inr dec ↦ rw dec (decimal_digits-IsId n n)
]

find_stat-receipt_text :
    (stamp stat : Text)
    → IsDigits stamp
    → IsWord stat
    → find_stat (
        codes " sub:001 dlvrd:001 submit date:"
        ++ (stamp
            ++ (codes " done date:"
                ++ (stamp ++ (codes " stat:" ++ (stat ++ codes " err:000 text:"))))))
      ≡ some stat
unfolding find_stat behind
find_stat-receipt_text stamp stat hstamp hstat =
    let final = codes " stat:" ++ (stat ++ codes " err:000 text:") in
    let later = codes " done date:" ++ (stamp ++ final) in
    find_stat-digits stamp later hstamp
    ∙ find_stat-digits stamp final hstamp
    ∙ find_stat-stat stat (codes "err:000 text:") hstat

search-receipt_text :
    (id stamp stat : Text)
    → IsId id
    → IsDigits stamp
    → IsWord stat
    → search (receipt_text id stamp stat) ≡ some (id, stat)
unfolding search behind
search-receipt_text id stamp stat hid hstamp hstat =
    let rest =
      codes "sub:001 dlvrd:001 submit date:"
      ++ (stamp
          ++ (codes " done date:"
              ++ (stamp ++ (codes " stat:" ++ (stat ++ codes " err:000 text:"))))) in
    rw (find_id-blank id rest stat hid (find_stat-receipt_text stamp stat hstamp hstat), search)
      refl

correlate-lookup :
    (id message_id : Text) (seq : ℕ) (ids : List (Text × Text))
    → IsId id
    → lookup id (correlate (reply 0 seq (Body.submit_sm_resp id)) message_id ids) ≡ some message_id
unfolding correlate
correlate-lookup [] message_id seq ids h = absurd h
correlate-lookup (c ∷ cs) message_id seq ids h = lookup-insert_self (c ∷ cs) message_id ids

-- When the sink writes message ids the same way in its responses and its receipts, hexadecimal or decimal, and
-- its receipts have a state of word characters and times of digits: the receipt of a submit whose response the
-- connector has taken is correlated with the id of the message, and counted so.
pub on_deliver_sm-receipt_of :
    (config : SinkConfig) (n seq : ℕ) (submit : SubmitSm) (stamp message_id : Text)
    (ids : List (Text × Text)) (r : Receipts)
    → config.submit_id_format ≡ config.dlr_id_format
    → IsDigits stamp
    → IsWord config.dlr_stat
    → let resp = reply 0 seq (Body.submit_sm_resp (format_id n config.submit_id_format)) in
      on_deliver_sm
        (correlate resp message_id ids)
        (receipt_of config n submit stamp).short_message
        r
      ≡ (
        some message_id,
        record r { dlr_count = r.dlr_count + 1; dlr_correlated = r.dlr_correlated + 1 },
      )
unfolding on_deliver_sm receipt_of
on_deliver_sm-receipt_of config n seq submit stamp message_id ids r same_format hstamp hstat =
    let id = format_id n config.dlr_id_format in
    let found =
      search-receipt_text id stamp config.dlr_stat (format_id-IsId n config.dlr_id_format) hstamp
        hstat in
    let named : provider_id (receipt_text id stamp config.dlr_stat) ≡ id =
      rw (found, provider_id) refl in
    let known = correlate-lookup id message_id seq ids (format_id-IsId n config.dlr_id_format) in
    rw (same_format, named, known, on_deliver_sm) refl
