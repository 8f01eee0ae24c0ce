-- ===== src/Smpp/Pdu/Writer.antt =====
-- smpp/pdu.py, `Writer`: the buffer, which each operation takes and returns longer.
use wholesale_project.Base.{ℕ, ◌+◌, ◌*◌, ◌^◌, ltb, [], ◌∷◌, ◌++◌, length, if◌then◌else◌}
use wholesale_project.Smpp.Pdu.Wire.{Text, Bytes, Fault, Result, ok, err, to_bytes, latin1}

unfoldable pub uint : ℕ → ℕ → Bytes → Result Bytes
uint value width buf =
    if ltb value (2 ^ (8 * width)) then ok (buf ++ to_bytes width value) else err Fault.out_of_range

unfoldable pub c_octet_string : Text → ℕ → Bytes → Result Bytes
c_octet_string value max_len buf =
    if latin1 value
    then (if ltb max_len (length value + 1)
        then err Fault.too_long
        else ok ((buf ++ value) ++ (0 ∷ [])))
    else err Fault.unicode_error

unfoldable pub octet_string : Bytes → Bytes → Result Bytes
octet_string value buf = ok (buf ++ value)
