-- ===== src/Queues/Sqs/Urls.antt =====
-- queues/sqs.py: the URLs of the queues and their cache. The client is a parameter over a world `ω`:
-- `get_queue_url` and `create_queue` take the name of a queue and give its URL, or `none` for an exception.
use wholesale_project.Base.{
  ◌==◌, ◌&&◌, ◌||◌, Bool, true, false, Option, none, some, List, [], ◌∷◌, ◌≡◌, inl, inr, refl,
  codes, lookup, insert, if◌then◌else◌, Option-cases, lookup-insert_self, ap, ◌∙◌, subst, ◌⊎◌,
}
use mathlib.Core.Option.{none-ne-some}
use wholesale_project.Smpp.Pdu.Wire.{Text}

pub record SqsBackend (ω : Type 0) : Type 0 where
  pub queues : List (Text × Text)
  pub url_cache : List (Text × Text)
  pub client : ω

-- `str.startswith`
unfoldable pub starts_with : Text → Text → Bool
starts_with [] text = true
starts_with (c ∷ start) [] = false
starts_with (c ∷ start) (d ∷ text) = c == d && starts_with start text

abbrev pub physical_of : Text → List (Text × Text) → Text
physical_of queue queues = elim (lookup queue queues) [ some name ↦ name | none ↦ queue ]

abbrev pub is_url : Text → Bool
is_url name = starts_with (codes "http://") name || starts_with (codes "https://") name

abbrev pub cached :
    {ω : Type 0} → Text → Option Text × ω → SqsBackend ω → Option Text × SqsBackend ω
cached queue (none, w) b = (none, record b { client = w })
cached queue (some url, w) b =
    (some url, record b { url_cache = insert queue url b.url_cache; client = w })

module _ {ω : Type 0} where
  unfoldable pub resolve_url :
      (Text → ω → Option Text × ω) → Text → SqsBackend ω → Option Text × SqsBackend ω
  resolve_url get_queue_url queue b = elim (lookup queue b.url_cache) [
    | some url ↦ (some url, b)
    | none ↦
        let physical = physical_of queue b.queues in
        cached queue
          (if is_url physical then (some physical, b.client) else get_queue_url physical b.client) b
  ]

  unfoldable pub ensure_queue :
      (Text → ω → Option Text × ω) → Text → SqsBackend ω → Option Text × SqsBackend ω
  ensure_queue create_queue queue b =
      cached queue (create_queue (physical_of queue b.queues) b.client) b

  lookup-cached :
      (queue url : Text) (r : Option Text × ω) (b b' : SqsBackend ω)
      → cached queue r b ≡ (some url, b')
      → lookup queue b'.url_cache ≡ some url
  lookup-cached queue url (none, w) b b' e = absurd (none-ne-some url (ap (λ r. r.0) e))
  lookup-cached queue url (some u, w) b b' e =
      subst (λ c. lookup queue c.url_cache ≡ some url) (ap (λ r. r.1) e)
        (lookup-insert_self queue u b.url_cache ∙ ap (λ r. r.0) e)

  -- Once a queue is resolved, by a first `_resolve_url` or by `ensure_queue`, a further `_resolve_url` gives the
  -- same URL, without a call of the client, and changes nothing.
  resolve_url-again :
      (get_queue_url create_queue : Text → ω → Option Text × ω) (queue url : Text)
      (b b' : SqsBackend ω)
      → (resolve_url get_queue_url queue b ≡ (some url, b'))
        ⊎ (ensure_queue create_queue queue b ≡ (some url, b'))
      → (later : Text → ω → Option Text × ω) → resolve_url later queue b' ≡ (some url, b')
  unfolding resolve_url ensure_queue
  resolve_url-again get create queue url b b' (inr e) later =
      let known = lookup-cached queue url (create (physical_of queue b.queues) b.client) b b' e in
      rw (known, resolve_url) refl
  resolve_url-again get create queue url b b' (inl e) later =
      elim (Option-cases (lookup queue b.url_cache)) [
        | inr (u, hit) ↦
            let same_result : (some u, b) ≡ (some url, b') = rw (hit, resolve_url) at e in
            let known : lookup queue b'.url_cache ≡ some url =
              subst (λ r. lookup queue r.1.url_cache ≡ r.0) same_result hit in
            rw (known, resolve_url) refl
        | inl miss ↦
            let called = rw (miss, resolve_url) at e in
            let known = lookup-cached queue url _ b b' called in rw (known, resolve_url) refl
      ]
