-- ===== src/Tools/Sink/Receipt.antt =====
-- tools/smpp_sink.py: `_send_dlr`, what the task of a receipt writes.
use wholesale_project.Base.{ℕ, [], ◌∷◌, ◌++◌, codes}
use wholesale_project.Smpp.Pdu.Wire.{Text}
use wholesale_project.Smpp.Pdu.Types.{SubmitSm, empty_submit}
use wholesale_project.Tools.Sink.{SinkConfig, format_id}

abbrev pub receipt_text : Text → Text → Text → Text
receipt_text id stamp stat =
    codes "id:"
    ++ (id
        ++ (codes " sub:001 dlvrd:001 submit date:"
            ++ (stamp
                ++ (codes " done date:"
                    ++ (stamp ++ (codes " stat:" ++ (stat ++ codes " err:000 text:")))))))

-- `_send_dlr` for the submit of the number `n`, at a time that is written `stamp`.
unfoldable pub receipt_of : SinkConfig → ℕ → SubmitSm → Text → SubmitSm
receipt_of config n submit stamp =
    let dlr_id = format_id n config.dlr_id_format in
    record empty_submit {
      source_addr = submit.destination_addr;
      destination_addr = submit.source_addr;
      esm_class = 0x04;
      short_message = receipt_text dlr_id stamp config.dlr_stat;
      tlvs = (0x001E, dlr_id ++ (0 ∷ [])) ∷ [];
    }
