-- ===== src/Common/Message.antt =====
-- common/message.py: the envelope and its serializers. A time is in microseconds. A mapping is a list
-- of keys and values; the JSON and msgpack libraries are parameters, from mappings to bytes and back.
use wholesale_project.Base.{
  ℕ, Option, none, some, List, [], ◌∷◌, ◌≡◌, refl, codes, if◌then◌else◌, lookup, same,
}
use wholesale_project.Smpp.Pdu.Wire.{Text}

pub record Message : Type 0 where
  pub id : Text
  pub to : Text
  pub text : Text
  pub sender : Option Text
  pub source : Text
  pub received_at : ℕ
  pub attributes : List (Text × Text)

-- The values of a mapping that `asdict` makes of a message.
pub data Value : Type 0 where
  text_value : Text → Value
  null : Value
  number : ℕ → Value
  mapping : List (Text × Text) → Value

abbrev pub Mapping : Type 0
Mapping = List (Text × Value)

abbrev pub optional : Option Text → Value
optional none = Value.null
optional (some t) = Value.text_value t

unfoldable pub asdict : Message → Mapping
asdict m =
    (codes "id", Value.text_value m.id)
    ∷ (codes "to", Value.text_value m.to)
    ∷ (codes "text", Value.text_value m.text)
    ∷ (codes "sender", optional m.sender)
    ∷ (codes "source", Value.text_value m.source)
    ∷ (codes "received_at", Value.number m.received_at)
    ∷ (codes "attributes", Value.mapping m.attributes)
    ∷ []

-- `obj[key]`: `none` is a KeyError, or a value that is not of the field's declared type (which Python
-- would let through).
abbrev pub as_text : Value → Option Text
as_text (Value.text_value t) = some t
as_text _ = none

abbrev pub text_at : Text → Mapping → Option Text
text_at k obj = elim (lookup k obj) [ some v ↦ as_text v | none ↦ none ]

abbrev pub as_optional : Value → Option (Option Text)
as_optional (Value.text_value t) = some (some t)
as_optional Value.null = some none
as_optional _ = none

abbrev pub optional_at : Text → Mapping → Option (Option Text)
optional_at k obj = elim (lookup k obj) [ some v ↦ as_optional v | none ↦ none ]

abbrev pub as_number : Value → Option ℕ
as_number (Value.number n) = some n
as_number _ = none

abbrev pub number_at : Text → Mapping → Option ℕ
number_at k obj = elim (lookup k obj) [ some v ↦ as_number v | none ↦ none ]

-- `dict(obj.get("attributes", {}))`
abbrev pub as_mapping : Value → Option (List (Text × Text))
as_mapping (Value.mapping m) = some m
as_mapping _ = none

abbrev pub mapping_at : Text → Mapping → Option (List (Text × Text))
mapping_at k obj = elim (lookup k obj) [ some v ↦ as_mapping v | none ↦ some [] ]

infixl 5 ◌>>=◌
abbrev pub ◌>>=◌ {ℓ κ} : {A : Type ℓ} {B : Type κ} → Option A → (A → Option B) → Option B
some a >>= f = f a
none >>= f = none

unfoldable pub message_from_mapping : Mapping → Option Message
message_from_mapping obj = do
  id ← text_at (codes "id") obj
  to ← text_at (codes "to") obj
  text ← text_at (codes "text") obj
  sender ← optional_at (codes "sender") obj
  source ← text_at (codes "source") obj
  received_at ← number_at (codes "received_at") obj
  attributes ← mapping_at (codes "attributes") obj
  some (record {
    id = id;
    to = to;
    text = text;
    sender = sender;
    source = source;
    received_at = received_at;
    attributes = attributes;
  })

as_optional-optional : (o : Option Text) → as_optional (optional o) ≡ some o
as_optional-optional none = refl
as_optional-optional (some t) = refl

message_from_mapping-asdict : (m : Message) → message_from_mapping (asdict m) ≡ some m
unfolding message_from_mapping asdict lookup same
message_from_mapping-asdict m = rw (as_optional-optional m.sender) refl

-- The two serializers by their names; `none` is the ValueError of another name.
pub data Serializer : Type 0 where
  json msgpack : Serializer

unfoldable pub get_serializer : Text → Option Serializer
get_serializer name =
    if same name (codes "json")
    then some Serializer.json
    else if same name (codes "msgpack")
    then some Serializer.msgpack
    else none

-- A serializer over a library that writes a mapping and reads it.
module _ {B : Type 0} (dumps : Mapping → B) (loads : B → Option Mapping) where
  unfoldable pub encode : Message → B
  encode m = dumps (asdict m)

  unfoldable pub decode : B → Option Message
  decode content = loads content >>= message_from_mapping

  -- With a library that reads back what it writes, a message that is encoded is decoded to itself.
  decode-encode_message :
      ((obj : Mapping) → loads (dumps obj) ≡ some obj) → (m : Message) → decode (encode m) ≡ some m
  unfolding encode decode
  decode-encode_message reads m = rw (reads (asdict m)) (message_from_mapping-asdict m)
