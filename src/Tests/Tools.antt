-- ===== src/Tests/Tools.antt =====
-- tools/smpp_sink.py at concrete inputs.
use wholesale_project.Base.{◌≡◌, refl, arith, true, false, some, [], ◌∷◌, codes}
use wholesale_project.Egress.SmppConnector.{correlate}
use wholesale_project.Egress.SmppConnector.Receipts.{Receipts, is_word, on_deliver_sm}
use wholesale_project.Smpp.Pdu.Wire.{Bytes, ok, err}
use wholesale_project.Smpp.Pdu.Types.{Body, Pdu, empty_submit}
use wholesale_project.Smpp.Pdu.Encode.{encode}
use wholesale_project.Tools.Sink.{SinkConfig, new_sink, format_id, reply}
use wholesale_project.Tools.Sink.Receipt.{receipt_of}
use wholesale_project.Tools.Sink.Handle.{handle}
use wholesale_project.Tools.Sink.Counts.{Counted, handle-Counted}
use wholesale_project.Tools.Sink.Correlation.{on_deliver_sm-receipt_of}

abbrev config : SinkConfig
config = record {
  throttle_tps = 2;
  throttle_per_bind = false;
  error_rate = 0;
  error_status = 0x45;
  submit_id_format = codes "hex";
  dlr_enabled = true;
  dlr_id_format = codes "hex";
  dlr_stat = codes "DELIVRD";
  drop_after = 0;
}

abbrev receipts : Receipts
receipts = record { dlr_count = 0; dlr_correlated = 0; dlr_missed = 0 }

on_deliver_sm-receipt_of_example :
    on_deliver_sm
      (correlate (reply 0 7 (Body.submit_sm_resp (format_id 26 (codes "hex")))) (codes "01H") [])
      (receipt_of config 26 empty_submit (codes "2601151200")).short_message
      receipts
    ≡ (some (codes "01H"), record receipts { dlr_count = 1; dlr_correlated = 1 })
unfolding is_word
on_deliver_sm-receipt_of_example =
    on_deliver_sm-receipt_of config 26 7 empty_submit (codes "2601151200") (codes "01H") [] receipts
      refl (refl, (refl, (refl, (refl, (refl, (refl, (refl, (refl, (refl, (refl, tt))))))))))
      (refl, (refl, (refl, (refl, (refl, (refl, (refl, tt)))))))

abbrev submit : Pdu
submit = record {
  command_status = 0;
  sequence_number = 6;
  body =
      Body.submit_sm (record empty_submit {
        destination_addr = codes "40721";
        tlvs = (0x1400, codes "01H") ∷ [];
      });
}

abbrev sent_by : Pdu → Bytes
sent_by p = elim (encode p) [ ok bytes ↦ bytes | err e ↦ [] ]

new_sink-Counted : Counted 0 (new_sink config)
new_sink-Counted = record {
  with_id = refl;
  within = omega arith;
  answered = omega arith;
  distinct = tt;
}

handle-Counted_example :
    Counted 0
      (handle 100
        (λ left. (left, 3))
        (new_sink config)
        (record { submits_here = 0; conn_window = [] })
        (sent_by submit)).1.1
handle-Counted_example =
    handle-Counted 100 (λ left. (left, 3)) (new_sink config)
      (record { submits_here = 0; conn_window = [] }) (sent_by submit) new_sink-Counted
