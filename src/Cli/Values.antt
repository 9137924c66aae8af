-- ===== src/Cli/Values.antt =====
-- The values that src/bin/t2.rs publishes and prints, and the topics that it lists.
use mathlib.Core.Logic.{ite}
use t2_bus.Base.{
  if◌then◌else◌, Bool, true, false, not, ◌&&◌, ◌||◌, Option-cases, inl, inr, codes, List, [], ◌∷◌,
  ◌++◌, Option, none, some, ◌≡◌, refl, arith,
}
use t2_bus.Text.{Text, text_discrete}
use t2_bus.Topic.{Topic, to_text}
use t2_bus.Err.{BusError, ok}
use t2_bus.Protocol.{Bytes, Gzip, PubMsg, to_payload, from_payload, from_payload-to_payload}
use t2_bus.Codec.{Cbor}
use t2_bus.Cli.Outcomes.{from_bus-done}
use t2_bus.Cli.{
  from_bus, Command, serve, sub, publish, ls, register, unregister, Outcome, done, failed, panicked,
  ◌>>=◌,
}

abbrev pub f32_prefix : Text
f32_prefix = codes "f32"

abbrev pub string_prefix : Text
string_prefix = codes "string"

abbrev pub unwrap : {A : Type 0} → Option A → Outcome A
unwrap none = panicked
unwrap (some a) = done a

-- Floating-point numbers are the standard library's, and `describe` is the text of an error.
pub record Floats : Type 1 where
  pub F32 : Type 0
  pub parse : Text → Option F32
  pub print : F32 → Text

module _ (floats : Floats) (cbor_f32 : Cbor floats.F32) (cbor_text : Cbor Text) (gzip : Gzip)
    (describe : BusError → Text) (hex : Bytes → Text) where
  abbrev not_a_float : Text
  not_a_float = codes "When the protocol is f32 then the value must be a valid f32"

  abbrev is_float : Option floats.F32 → Outcome (Unit {0})
  is_float none = failed not_a_float
  is_float (some x) = done tt

  -- `Commands::validate`
  unfoldable pub validate : Command → Outcome (Unit {0})
  validate (serve addr) = done tt
  validate (sub topic addr) = done tt
  validate (ls topic addr) = done tt
  validate (publish topic value addr) =
      ite (text_discrete topic.protocol f32_prefix) (is_float (floats.parse value)) (
        ite (text_discrete topic.protocol string_prefix) (done tt)
          (failed (codes "Unknown protocol")))
  validate (register name addr default) = done tt
  validate (unregister name) = done tt

  -- The payload that `Pub` sends.
  unfoldable pub pub_payload : Topic → Text → Outcome Bytes
  pub_payload topic value =
      ite (text_discrete topic.protocol f32_prefix)
        (unwrap (floats.parse value) >>= λ x. from_bus describe (cbor_f32.ser x))
        (from_bus describe (cbor_text.ser value))

  abbrev value_text : Topic → Bytes → Outcome Text
  value_text topic bytes =
      ite (text_discrete topic.protocol f32_prefix)
        (from_bus describe (cbor_f32.deser bytes) >>= λ x. done (floats.print x))
        (ite (text_discrete topic.protocol string_prefix)
          (from_bus describe (cbor_text.deser bytes)) (done (codes "0x" ++ hex bytes)))

  abbrev pub with_topic : Topic → Text → Text
  with_topic topic value = to_text topic ++ codes ": " ++ value

  -- The line that `Sub` prints for a message.
  unfoldable pub sub_line : PubMsg → Outcome Text
  unfolding from_payload to_text
  sub_line msg = from_bus describe (from_payload gzip msg.payload) >>= λ bytes.
      value_text msg.topic bytes >>= λ value. done (with_topic msg.topic value)

  -- What is printed for a value on a topic.
  abbrev pub printed : Topic → Text → Option Text
  printed topic value =
      ite (text_discrete topic.protocol f32_prefix)
        (elim (floats.parse value) [ none ↦ none | some x ↦ some (floats.print x) ]) (some value)

  -- A value that passes the validation and is encoded without an error is printed by a subscriber: a
  -- string as it is, and a number as it is printed after it was parsed.
  pub pub_payload-printed :
      (topic : Topic) (value : Text) (addr : Option Text) (bytes : Bytes)
      → validate (publish topic value addr) ≡ done tt
      → pub_payload topic value ≡ done bytes
      → (text : Text) × (printed topic value ≡ some text)
        × (sub_line (record { topic = topic; payload = to_payload gzip bytes })
            ≡ done (with_topic topic text))
  unfolding validate pub_payload sub_line
  pub_payload-printed topic value addr bytes v p = elim (text_discrete topic.protocol f32_prefix) [
    | yes e ↦ elim (Option-cases (floats.parse value)) [
      | inl n ↦ ground (arith, v, e, n)
      | inr (x, f) ↦
          let coded : cbor_f32.ser x ≡ ok bytes =
            from_bus-done describe (cbor_f32.ser x) bytes (ground (arith, p, e, f)) in
          (
            floats.print x,
            ground (arith, e, f),
            ground (arith, e, from_payload-to_payload gzip bytes, cbor_f32.deser-ser x bytes coded),
          )
    ]
    | no n ↦
        let coded : cbor_text.ser value ≡ ok bytes =
          from_bus-done describe (cbor_text.ser value) bytes (ground (arith, p, n)) in
        (
          value,
          ground (arith, n),
          ground (
            arith,
            v,
            n,
            from_payload-to_payload gzip bytes,
            cbor_text.deser-ser value bytes coded,
          ),
        )
  ]

abbrev same_topic : Topic → Topic → Bool
same_topic t u =
    ite (text_discrete t.protocol u.protocol)
      (ite (text_discrete t.path.text u.path.text) true false) false

abbrev pub has_topic : Topic → List Topic → Bool
has_topic t [] = false
has_topic t (u ∷ us) = same_topic t u || has_topic t us

-- The loop of `Ls`: the topics that it prints, after those in `encountered`.
unfoldable pub list_topics : List Topic → List Topic → List Topic
list_topics encountered [] = []
list_topics encountered (t ∷ ts) =
    let skipped = list_topics encountered ts in
    let printed = list_topics (t ∷ encountered) ts in
    if has_topic t encountered then skipped else t ∷ printed

abbrev pub IsOnce : List Topic → Type 0
IsOnce [] = Unit
IsOnce (t ∷ ts) = (has_topic t ts ≡ false) × IsOnce ts

same_topic_trans :
    (t u : Topic) (us : List Topic) → same_topic t u ≡ true → has_topic t us ≡ has_topic u us
same_topic_trans t u [] e = refl
same_topic_trans t u (w ∷ us) e = ground (arith, e, same_topic_trans t u us e)

-- A topic is listed exactly if it is among the messages' topics and was not encountered before.
pub has_topic-list_topics :
    (encountered ts : List Topic) (t : Topic)
    → has_topic t (list_topics encountered ts) ≡ (has_topic t ts && not (has_topic t encountered))
unfolding list_topics
has_topic-list_topics encountered [] t = refl
has_topic-list_topics encountered (u ∷ ts) t = ground (
  arith,
  has_topic-list_topics encountered ts t,
  has_topic-list_topics (u ∷ encountered) ts t,
  same_topic_trans t u encountered,
)

-- No topic is listed twice.
pub list_topics-IsOnce : (encountered ts : List Topic) → IsOnce (list_topics encountered ts)
unfolding list_topics
list_topics-IsOnce encountered [] = tt
list_topics-IsOnce encountered (t ∷ ts) = ground (
  arith,
  list_topics-IsOnce encountered ts,
  list_topics-IsOnce (t ∷ encountered) ts,
  has_topic-list_topics (t ∷ encountered) ts t,
)
