-- ===== src/Engine/Caches/Metadata/Laws.antt =====
-- The metadata cache against the history of its calls.
use dart_odbc_fast.Prelude.{
  ℕ, ◌-◌, ◌≤◌, max, List, [], ◌∷◌, Option, none, some, ◌≡◌, refl, ◌∙◌, ◌⊎◌, inl, inr, arith,
  Bool-cases, ltb, if◌then◌else◌, sym,
}
use dart_odbc_fast.Wire.{Bytes}
use dart_odbc_fast.Engine.Lru.{Lru}
use dart_odbc_fast.Engine.Lru.Forgets.{
  Store, assign, Holds, create-Holds, get-Holds, put-Holds, pop-Holds, clear-Holds,
}
use dart_odbc_fast.Engine.Caches.Metadata.{
  TableSchema, CachedPayload, MetadataCache, new_cache, found_schema, found_payload, get_schema,
  cache_schema, get_payload, cache_payload, clear, stats, expired,
}
use dart_odbc_fast.Engine.Caches.Metadata.History.{
  Op, read_schema, write_schema, read_payload, write_payload, wipe, stored_schemas, stored_payloads,
  PayloadAnswer, SchemaAnswer,
}

module _ {K : Type 0} (dec : Discrete K) (ls : Lru K TableSchema) (lp : Lru K CachedPayload) where
  unfoldable pub step : Op K → MetadataCache ls lp → MetadataCache ls lp
  step (read_schema now k) c = (get_schema ls lp now k c).1
  step (write_schema k schema) c = cache_schema ls lp k schema c
  step (read_payload now k) c = (get_payload ls lp now k c).1
  step (write_payload now k bytes) c = cache_payload ls lp now k bytes c
  step wipe c = clear ls lp c

  unfoldable pub run : List (Op K) → MetadataCache ls lp → MetadataCache ls lp
  unfolding step
  run [] c = c
  run (op ∷ ops) c = run ops (step op c)

  pub record Tracks (size ttl : ℕ) (c : MetadataCache ls lp) (ss : Store K TableSchema)
      (ps : Store K CachedPayload) : Type 0 where
    pub schemas_known : Holds dec ls c.schemas ss
    pub payloads_known : Holds dec lp c.payloads ps
    pub schemas_cap : ls.cap c.schemas ≡ size
    pub payloads_cap : lp.cap c.payloads ≡ size
    pub same_ttl : c.ttl ≡ ttl
    pub same_size : c.max_size ≡ size

  module _ (size ttl : ℕ) (ss : Store K TableSchema) (ps : Store K CachedPayload)
      (c : MetadataCache ls lp) (t : Tracks size ttl c ss ps) where
    with_schemas :
        (guard : ls.Cache) (ss' : Store K TableSchema)
        → Holds dec ls guard ss'
        → ls.cap guard ≡ size
        → Tracks size ttl (record c { schemas = guard }) ss' ps
    with_schemas guard ss' h e = record {
      schemas_known = h;
      payloads_known = t.payloads_known;
      schemas_cap = e;
      payloads_cap = t.payloads_cap;
      same_ttl = t.same_ttl;
      same_size = t.same_size;
    }

    with_payloads :
        (guard : lp.Cache) (ps' : Store K CachedPayload)
        → Holds dec lp guard ps'
        → lp.cap guard ≡ size
        → Tracks size ttl (record c { payloads = guard }) ss ps'
    with_payloads guard ps' h e = record {
      schemas_known = t.schemas_known;
      payloads_known = h;
      schemas_cap = t.schemas_cap;
      payloads_cap = e;
      same_ttl = t.same_ttl;
      same_size = t.same_size;
    }

    found_schema-Tracks :
        (now : ℕ) (k : K) (m : Option TableSchema × ls.Cache)
        → Holds dec ls m.1 ss
        → ls.cap m.1 ≡ size
        → Tracks size ttl (found_schema ls lp now k c m).1 ss ps
    found_schema-Tracks now k (none, guard) h e = with_schemas guard ss h e
    found_schema-Tracks now k (some schema, guard) h e =
        elim (Bool-cases (expired c.ttl now schema.cached_at)) [
          | inl old ↦ rw old (
              with_schemas (ls.pop k guard) ss (pop-Holds dec ls k guard ss h)
                (ls.cap-pop k guard ∙ e))
          | inr young ↦ rw young (with_schemas guard ss h e)
        ]

    found_payload-Tracks :
        (now : ℕ) (k : K) (m : Option CachedPayload × lp.Cache)
        → Holds dec lp m.1 ps
        → lp.cap m.1 ≡ size
        → Tracks size ttl (found_payload ls lp now k c m).1 ss ps
    found_payload-Tracks now k (none, guard) h e = with_payloads guard ps h e
    found_payload-Tracks now k (some payload, guard) h e =
        elim (Bool-cases (expired c.ttl now payload.cached_at)) [
          | inl old ↦ rw old (
              with_payloads (lp.pop k guard) ps (pop-Holds dec lp k guard ps h)
                (lp.cap-pop k guard ∙ e))
          | inr young ↦ rw young (with_payloads guard ps h e)
        ]

    step-Tracks :
        (op : Op K)
        → Tracks size ttl
            (step op c)
            (stored_schemas dec (op ∷ []) ss)
            (stored_payloads dec (op ∷ []) ps)
    unfolding step get_schema cache_schema get_payload cache_payload clear
    step-Tracks (read_schema now k) =
        found_schema-Tracks now k (ls.get k c.schemas)
          (get-Holds dec ls k c.schemas ss t.schemas_known) (ls.cap-get k c.schemas ∙ t.schemas_cap)
    step-Tracks (write_schema k schema) =
        with_schemas (ls.put k schema c.schemas) (assign dec k schema ss)
          (put-Holds dec ls k schema c.schemas ss t.schemas_known)
          (ls.cap-put k schema c.schemas ∙ t.schemas_cap)
    step-Tracks (read_payload now k) =
        found_payload-Tracks now k (lp.get k c.payloads)
          (get-Holds dec lp k c.payloads ps t.payloads_known)
          (lp.cap-get k c.payloads ∙ t.payloads_cap)
    step-Tracks (write_payload now k bytes) =
        let p : CachedPayload = record { bytes = bytes; cached_at = now } in
        with_payloads (lp.put k p c.payloads) (assign dec k p ps)
          (put-Holds dec lp k p c.payloads ps t.payloads_known)
          (lp.cap-put k p c.payloads ∙ t.payloads_cap)
    step-Tracks wipe = record {
      same_ttl = t.same_ttl;
      same_size = t.same_size;
      schemas_known = clear-Holds dec ls c.schemas;
      payloads_known = clear-Holds dec lp c.payloads;
      schemas_cap = ls.cap-clear c.schemas ∙ t.schemas_cap;
      payloads_cap = lp.cap-clear c.payloads ∙ t.payloads_cap;
    }

    payload_answer :
        (now : ℕ) (k : K) (m : Option CachedPayload × lp.Cache)
        → (m.0 ≡ none) ⊎ (m.0 ≡ ps k)
        → PayloadAnswer ttl ps now k (found_payload ls lp now k c m).0
    payload_answer now k (none, guard) h = inl refl
    payload_answer now k (some p, guard) (inl e) = cc
    payload_answer now k (some p, guard) (inr e) =
        elim (Bool-cases (expired c.ttl now p.cached_at)) [
          | inl old ↦ inl (rw old refl)
          | inr young ↦ inr (p, sym e, rw young refl, ground (arith, t.same_ttl))
        ]

    schema_answer :
        (now : ℕ) (k : K) (m : Option TableSchema × ls.Cache)
        → (m.0 ≡ none) ⊎ (m.0 ≡ ss k)
        → SchemaAnswer ttl ss now k (found_schema ls lp now k c m).0
    schema_answer now k (none, guard) h = inl refl
    schema_answer now k (some s, guard) (inl e) = cc
    schema_answer now k (some s, guard) (inr e) =
        elim (Bool-cases (expired c.ttl now s.cached_at)) [
          | inl old ↦ inl (rw old refl)
          | inr young ↦ inr (s, sym e, rw young refl, ground (arith, t.same_ttl))
        ]

  run-Tracks :
      (size ttl : ℕ) (ops : List (Op K)) (ss : Store K TableSchema) (ps : Store K CachedPayload)
      (c : MetadataCache ls lp)
      → Tracks size ttl c ss ps
      → Tracks size ttl (run ops c) (stored_schemas dec ops ss) (stored_payloads dec ops ps)
  unfolding run
  run-Tracks size ttl [] ss ps c t = t
  run-Tracks size ttl (read_schema now k ∷ ops) ss ps c t =
      run-Tracks size ttl ops ss ps _ (step-Tracks size ttl ss ps c t (read_schema now k))
  run-Tracks size ttl (write_schema k schema ∷ ops) ss ps c t =
      run-Tracks size ttl ops (assign dec k schema ss) ps _
        (step-Tracks size ttl ss ps c t (write_schema k schema))
  run-Tracks size ttl (read_payload now k ∷ ops) ss ps c t =
      run-Tracks size ttl ops ss ps _ (step-Tracks size ttl ss ps c t (read_payload now k))
  run-Tracks size ttl (write_payload now k bytes ∷ ops) ss ps c t =
      run-Tracks size ttl ops ss (assign dec k (record { bytes = bytes; cached_at = now }) ps) _
        (step-Tracks size ttl ss ps c t (write_payload now k bytes))
  run-Tracks size ttl (wipe ∷ ops) ss ps c t =
      run-Tracks size ttl ops (λ k. none) (λ k. none) _ (step-Tracks size ttl ss ps c t wipe)

  new-Tracks :
      (size ttl : ℕ) → Tracks (max size 1) ttl (new_cache ls lp size ttl) (λ k. none) (λ k. none)
  unfolding new_cache
  new-Tracks size ttl =
      let positive : 1 ≤ max size 1 = omega arith in
      record {
        schemas_known = create-Holds dec ls (max size 1);
        payloads_known = create-Holds dec lp (max size 1);
        schemas_cap = ls.cap-create (max size 1) positive;
        payloads_cap = lp.cap-create (max size 1) positive;
        same_ttl = refl;
        same_size = refl;
      }

  -- After any calls on a new cache, read at any time: `get_payload` answers nothing, or the bytes of
  -- the last `cache_payload` under the key since the last `clear`, and they are no older than the
  -- time to live; so too `get_schema`. Neither of the two caches holds more entries than the size
  -- that the cache reports, which is the size asked for, or 1.
  pub metadata_cache_lem :
      (size ttl : ℕ) (ops : List (Op K)) (now : ℕ) (k : K)
      → (let c = run ops (new_cache ls lp size ttl) in
          let ss = stored_schemas dec ops (λ j. none) in
          let ps = stored_payloads dec ops (λ j. none) in
          PayloadAnswer ttl ps now k (get_payload ls lp now k c).0
          × SchemaAnswer ttl ss now k (get_schema ls lp now k c).0
          × ((stats ls lp c).max_size ≡ max size 1)
          × ((stats ls lp c).payload_entries ≤ max size 1)
          × ((stats ls lp c).schema_entries ≤ max size 1))
  unfolding get_payload get_schema stats
  metadata_cache_lem size ttl ops now k =
      let c = run ops (new_cache ls lp size ttl) in
      let ss = stored_schemas dec ops (λ j. none) in
      let ps = stored_payloads dec ops (λ j. none) in
      let t =
        run-Tracks (max size 1) ttl ops (λ j. none) (λ j. none) (new_cache ls lp size ttl)
          (new-Tracks size ttl) in
      (
        payload_answer (max size 1) ttl ss ps c t now k (lp.get k c.payloads)
            (rw (lp.get-peek k c.payloads) (t.payloads_known k)),
        schema_answer (max size 1) ttl ss ps c t now k (ls.get k c.schemas)
            (rw (ls.get-peek k c.schemas) (t.schemas_known k)),
        t.same_size,
        omega (arith, lp.len-cap c.payloads, t.payloads_cap),
        omega (arith, ls.len-cap c.schemas, t.schemas_cap),
      )

  found_lem :
      (now : ℕ) (k : K) (c : MetadataCache ls lp) (p : CachedPayload)
      (m : Option CachedPayload × lp.Cache)
      → m.0 ≡ some p
      → (found_payload ls lp now k c m).0
        ≡ (if ltb c.ttl (now - p.cached_at) then none else some p.bytes)
  found_lem now k c p (none, guard) h = cc
  found_lem now k c p (some q, guard) h =
      let same : q ≡ p = cc h in
      rw same (elim (Bool-cases (expired c.ttl now p.cached_at)) [
        | inl old ↦ rw old refl
        | inr young ↦ rw young refl
      ])

  -- What has just been cached is found again, until it is older than the time to live.
  get_payload-cache_payload :
      (then_at now : ℕ) (k : K) (bytes : Bytes) (c : MetadataCache ls lp)
      → (get_payload ls lp now k (cache_payload ls lp then_at k bytes c)).0
        ≡ (if ltb c.ttl (now - then_at) then none else some bytes)
  unfolding get_payload cache_payload
  get_payload-cache_payload then_at now k bytes c =
      let p : CachedPayload = record { bytes = bytes; cached_at = then_at } in
      let stored = lp.put k p c.payloads in
      found_lem now k (record c { payloads = stored }) p (lp.get k stored)
        (lp.get-peek k stored ∙ lp.peek-put_self k p c.payloads)
