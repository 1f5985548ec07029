-- ===== src/Catalog/Profile/Cache.antt =====
-- Metadata that is cached is not read again (src/morningstar_modbus/catalog/profile.py).
use morningstar_modbus_api.Prelude.{
  ℕ, ◌≡◌, refl, ap, ◌∙◌, sym, inl, inr, Bool, true, false, not, Option, none, some, List, [], ◌∷◌,
  ◌||◌, ◌&&◌, all, any, arith, Bool-cases,
}
use morningstar_modbus_api.Errors.{Result, ok, err}
use morningstar_modbus_api.Actions.{Action, proceed, settle, skip_if, for_each, tolerate}
use morningstar_modbus_api.Actions.Runs.{
  Keeps, Found, Keeps->>=, Keeps-for_each, Keeps-tolerate, Keeps-skip_if,
}
use morningstar_modbus_api.Catalog.Types.{RegisterBlock, DeviceProfileSpec}
use morningstar_modbus_api.Catalog.Words.{BlockKey, block_key, same_block}
use morningstar_modbus_api.Catalog.Words.Lookup.{same_kind_refl}
use morningstar_modbus_api.Catalog.Profile.{
  CatalogProfile, Profile, read_block, remember_block, fetch_block, load_block, load_metadata,
  is_settled,
}
use morningstar_modbus_api.Transports.Client.{ReadOnlyModbusClient}

-- No cached block of the profile is optional.
abbrev pub caches_mandatory : DeviceProfileSpec → Bool
caches_mandatory spec =
    all (λ b. not (RegisterBlock.cache b) || not (RegisterBlock.optional b)) spec.blocks

same_block_refl : (k : BlockKey) → same_block k k ≡ true
same_block_refl (f, a, n) = rw (same_kind_refl f) (ground arith)

both : (a b : Bool) → (a && b) ≡ true → (a ≡ true) × (b ≡ true)
both a b h = ground arith

or_left : (a b : Bool) → a ≡ true → (a || b) ≡ true
or_left a b h = ground arith

or_cons : (a b c : Bool) → (a || b) ≡ true → (a || (c || b)) ≡ true
or_cons a b c h = ground arith

or_middle : (a b c : Bool) → b ≡ true → (a || (b || c)) ≡ true
or_middle a b c h = ground arith

mandatory :
    (cache optional : Bool) → (not cache || not optional) ≡ true → cache ≡ true → optional ≡ false
mandatory cache optional h k = ground arith

-- Two calls one after the other that returned.
proceed-eq-ok :
    {P : Type 0} {B : Type 0} (k : Action P B) (r : Result (Unit {0}) × P) (b : B) (p' : P)
    → proceed (λ done. k) r ≡ (ok b, p')
    → (q : P) × (r ≡ (ok tt, q)) × (k q ≡ (ok b, p'))
proceed-eq-ok k (ok u, q) b p' h = (q, refl, h)
proceed-eq-ok k (err e, q) b p' h = cc

module _ (C : ReadOnlyModbusClient) where
  Settled : RegisterBlock → Profile C → Type 0
  Settled b p = is_settled C b p ≡ true

  -- A block that is settled stays so.
  Settled-Keeps : (b c : RegisterBlock) → Keeps (Settled b) (λ u. Unit) (load_block C c)
  unfolding Settled
  Settled-Keeps b c p h = Keeps-skip_if (Settled b) (is_settled C c p) (fetch_block C c) fetched p h
    where
      remembered :
          (words : Option (List ℕ)) → Keeps (Settled b) (λ u. Unit) (remember_block C c words)
      remembered none q k = (k, λ u e. tt)
      remembered (some ws) q k = (
        or_cons (not b.cache) (any (same_block (block_key b)) q.cached_blocks)
            (same_block (block_key b) (block_key c)) k,
        λ u e. tt,
      )

      fetched : Keeps (Settled b) (λ u. Unit) (fetch_block C c)
      fetched =
          Keeps->>= (Settled b) (Found (λ ws. Unit)) (λ u. Unit)
            (tolerate c.optional (read_block C c)) (remember_block C c)
            (Keeps-tolerate (Settled b) (λ ws. Unit) c.optional (read_block C c)
              (λ q k. (k, λ ws e. tt)))
            (λ words u. remembered words)

  fetch_block-Settled :
      (b : RegisterBlock) (optional : Bool) (r : Result (List ℕ)) (q p' : Profile C)
      → optional ≡ false
      → proceed (remember_block C b) (settle optional (r, q)) ≡ (ok tt, p')
      → Settled b p'
  unfolding Settled
  fetch_block-Settled b optional (ok ws) q p' o h =
      let keys : CatalogProfile.cached_blocks p' ≡ block_key b ∷ q.cached_blocks =
        sym (ap (λ s. CatalogProfile.cached_blocks s.1) h) in
      ap (λ ks. not b.cache || any (same_block (block_key b)) ks) keys
      ∙ or_middle (not b.cache) (same_block (block_key b) (block_key b))
          (any (same_block (block_key b)) q.cached_blocks) (same_block_refl (block_key b))
  fetch_block-Settled b true (err e) q p' o h = cc
  fetch_block-Settled b false (err e) q p' o h = cc

  load_block-Settled :
      (b : RegisterBlock) (p p' : Profile C) (settled : Bool)
      → is_settled C b p ≡ settled
      → (not b.cache || not b.optional) ≡ true
      → skip_if settled (fetch_block C b) p ≡ (ok tt, p')
      → Settled b p'
  unfolding Settled
  load_block-Settled b p p' true e m h = ap (λ s. is_settled C b s.1) (sym h) ∙ e
  load_block-Settled b p p' false e m h = elim (Bool-cases b.cache) [
    | inl cached ↦
        fetch_block-Settled b b.optional (C.read b.function b.address b.count p.client).0 _ p'
          (mandatory b.cache b.optional m cached) h
    | inr live ↦ or_left (not b.cache) _ (ap not live)
  ]

  all_settled :
      (blocks : List RegisterBlock) (p p' : Profile C)
      → all (λ b. not (RegisterBlock.cache b) || not (RegisterBlock.optional b)) blocks ≡ true
      → for_each blocks (load_block C) p ≡ (ok tt, p')
      → for_each blocks (load_block C) p' ≡ (ok tt, p')
  unfolding Settled
  all_settled [] p p' m h = refl
  all_settled (b ∷ blocks) p p' m h =
      let (here, later) = both _ _ m in
      let (q, e, k) = proceed-eq-ok (for_each blocks (load_block C)) (load_block C b p) tt p' h in
      let now : Settled b q = load_block-Settled b p q (is_settled C b p) refl here e in
      let kept = (Keeps-for_each (Settled b) blocks (load_block C) (Settled-Keeps b) q now).0 in
      let still : is_settled C b p' ≡ true = ap (λ s. is_settled C b s.1) (sym k) ∙ kept in
      ap (λ t. proceed (λ done. for_each blocks (load_block C)) (skip_if t (fetch_block C b) p'))
        still
      ∙ all_settled blocks q p' later k

  -- Where no cached block is optional, a load of the metadata that returned has settled them all:
  -- the next load reads nothing from the client and changes nothing.
  pub load_metadata-twice :
      (spec : DeviceProfileSpec) (p p' : Profile C)
      → caches_mandatory spec ≡ true
      → load_metadata C spec p ≡ (ok tt, p')
      → load_metadata C spec p' ≡ (ok tt, p')
  unfolding load_metadata
  load_metadata-twice spec p p' m h = all_settled spec.blocks p p' m h
