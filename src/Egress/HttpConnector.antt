-- ===== src/Egress/HttpConnector.antt =====
-- egress/http_connector.py: a post for each message of a batch. The client is a parameter: `post` takes the
-- fields of a message and gives the status of the response, or `none` for an exception, from a world `ω`. The
-- posts run one after the other, which is one of the orders of `asyncio.gather`; the waits of the token
-- bucket are in Egress.Shaper.
use wholesale_project.Base.{
  ℕ, ◌+◌, ltb, Bool, true, false, Option, none, some, List, [], ◌∷◌, map, length, ◌≡◌, refl, arith,
  if◌then◌else◌,
}
use wholesale_project.Common.Message.{Mapping, asdict}
use wholesale_project.Egress.SmppConnector.{ReceivedMessage}
use wholesale_project.Smpp.Pdu.Wire.{Text}

-- The counter of the submits by their result.
pub record Submitted : Type 0 where
  pub success : ℕ
  pub error : ℕ

abbrev pub accepted : Option ℕ → Bool
accepted none = false
accepted (some status) = ltb status 400

unfoldable pub count : Bool → Submitted → Submitted
count b c = if b then record c { success = c.success + 1 } else record c { error = c.error + 1 }

count_lem :
    (b : Bool) (c : Submitted) → (count b c).success + (count b c).error ≡ c.success + c.error + 1
unfolding count
count_lem true c = omega arith
count_lem false c = omega arith

module _ {ω : Type 0} (post : Mapping → ω → Option ℕ × ω) where
  unfoldable pub submit : ReceivedMessage → ω → Submitted → ω × Submitted
  submit item w c =
      let (answer, w') = post (asdict item.message) w in (w', count (accepted answer) c)

  unfoldable pub submit_all : List ReceivedMessage → ω → Submitted → ω × Submitted
  submit_all [] w c = (w, c)
  submit_all (item ∷ batch) w c = let (w', c') = submit item w c in submit_all batch w' c'

  unfoldable pub handle : List ReceivedMessage → ω → Submitted → List Text × (ω × Submitted)
  handle batch w c = (map (λ (item : ReceivedMessage). item.handle) batch, submit_all batch w c)

  submit_all-counted :
      (batch : List ReceivedMessage) (w : ω) (c : Submitted)
      → (submit_all batch w c).1.success + (submit_all batch w c).1.error
        ≡ c.success + c.error + length batch
  unfolding submit_all submit
  submit_all-counted [] w c = omega arith
  submit_all-counted (item ∷ batch) w c =
      let (answer, w') = post (asdict item.message) w in
      let c' = count (accepted answer) c in
      omega (arith, submit_all-counted batch w' c', count_lem (accepted answer) c)

  -- Whatever the endpoint answers, or the client raises: every message of a batch is acknowledged, in the
  -- batch's order, and each is counted once, as a success or as an error.
  handle_acknowledges :
      (batch : List ReceivedMessage) (w : ω) (c : Submitted)
      → let (handles, (w', c')) = handle batch w c in
        (handles ≡ map (λ (item : ReceivedMessage). item.handle) batch)
        × (c'.success + c'.error ≡ c.success + c.error + length batch)
  unfolding handle
  handle_acknowledges batch w c = (refl, submit_all-counted batch w c)
