-- ===== src/Catalog/Profile/Loads.antt =====
-- What the reads of a profile leave in its dict of words when the device answers every block that is
-- not optional (src/morningstar_modbus/catalog/profile.py).
use morningstar_modbus_api.Prelude.{
  ℕ, ◌+◌, ◌≡◌, refl, subst, sym, ap, ◌∙◌, inl, inr, Bool, true, false, not, List, [], ◌∷◌, ◌||◌,
  ◌&&◌, ◌==◌, any, length, arith, All, Bool-cases,
}
use morningstar_modbus_api.Errors.{Result, ok, err}
use morningstar_modbus_api.Actions.{for_each, settle, proceed, pure, skip_if}
use morningstar_modbus_api.Catalog.Types.{
  RegisterFunction, holding, input, RegisterBlock, DeviceProfileSpec, same_kind,
}
use morningstar_modbus_api.Catalog.Decode.Needs.{Returns}
use morningstar_modbus_api.Catalog.Words.{
  WordKey, BlockKey, Words, block_key, same_block, store_words,
}
use morningstar_modbus_api.Catalog.Words.Lookup.{IsKnown, store_words-IsKnown_before}
use morningstar_modbus_api.Catalog.Profile.{
  Profile, remember_block, fetch_block, load_block, load_metadata, is_settled, read_unless,
  read_all_live, with_found,
}
use morningstar_modbus_api.Catalog.Profile.Coherent.{
  IsKnownBlock, IsCoherent, known_before, stored_block,
}
use morningstar_modbus_api.Transports.Client.{ReadOnlyModbusClient, AnswersInFull}

-- Whatever its state, the client reads the block, unless it is optional.
abbrev pub ReadsBlock : ReadOnlyModbusClient → RegisterBlock → Type 0
ReadsBlock C b =
    b.optional ≡ false → (s : C.State) → Returns (C.read b.function b.address b.count s).0

-- What is known stays known.
abbrev pub Grows : Words → Words → Type 0
Grows d d' = (k : WordKey) → IsKnown d k → IsKnown d' k

abbrev pub Serves : RegisterBlock → Words → Bool → Type 0
Serves b d cached = b.cache ≡ cached → b.optional ≡ false → IsKnownBlock d (block_key b)

pub grown : (d d' : Words) (k : BlockKey) → Grows d d' → IsKnownBlock d k → IsKnownBlock d' k
grown d d' (f, a, n) g h i le = g (f, a + i) (h i le)

stored-Grows :
    (f : RegisterFunction) (a : ℕ) (ws : List ℕ) (d : Words) → Grows d (store_words f a ws d)
stored-Grows f a ws d k h = store_words-IsKnown_before f a ws d k h

pub same_kind_sound : (f g : RegisterFunction) → same_kind f g ≡ true → f ≡ g
same_kind_sound holding holding h = refl
same_kind_sound input input h = refl
same_kind_sound holding input h = cc
same_kind_sound input holding h = cc

numbers_same :
    (k : Bool) (a b m n : ℕ) → (k && a == b && m == n) ≡ true → (k ≡ true) × (a ≡ b) × (m ≡ n)
numbers_same k a b m n h = ground arith

same_block_sound : (j k : BlockKey) → same_block j k ≡ true → j ≡ k
same_block_sound (f, a, m) (g, b, n) h =
    let (kind, at, size) = numbers_same (same_kind f g) a b m n h in
    let same = same_kind_sound f g kind in cc

cached_known :
    (d : Words) (k : BlockKey) (keys : List BlockKey)
    → any (same_block k) keys ≡ true
    → All (IsKnownBlock d) keys
    → IsKnownBlock d k
cached_known d k [] h all = cc
cached_known d k (key ∷ keys) h (here, later) = elim (Bool-cases (same_block k key)) [
  | inl e ↦ subst (IsKnownBlock d) (sym (same_block_sound k key e)) here
  | inr e ↦ cached_known d k keys (sym (ap (λ t. t || any (same_block k) keys) e) ∙ h) later
]

module _ (C : ReadOnlyModbusClient) (full : AnswersInFull C) where
  -- A step of loading the metadata returned, and what it left.
  abbrev pub Loaded : (Words → Type 0) → Profile C → Result (Unit {0}) × Profile C → Type 0
  Loaded Post p r =
      (p' : Profile C) × (r ≡ (ok tt, p'))
      × IsCoherent p'
      × Grows p.metadata p'.metadata
      × Post p'.metadata

  remembered :
      (b : RegisterBlock) (p : Profile C) (optional : Bool) (r : Result (List ℕ) × C.State)
      → b.optional ≡ optional
      → IsCoherent p
      → ((ws : List ℕ) → r.0 ≡ ok ws → length ws ≡ b.count)
      → (b.optional ≡ false → Returns r.0)
      → Loaded
          (λ d. Serves b d true)
          p
          (proceed (remember_block C b) (settle optional (r.0, record p { client = r.1 })))
  remembered b p optional (ok ws, s) e c f h = (
    _,
    refl,
    (stored_block b ws p.metadata (f ws refl), kept p.cached_blocks c),
    stored-Grows b.function b.address ws p.metadata,
    λ cached mandatory. stored_block b ws p.metadata (f ws refl),
  )
    where
      kept :
          (keys : List BlockKey)
          → All (IsKnownBlock p.metadata) keys
          → All (IsKnownBlock (store_words b.function b.address ws p.metadata)) keys
      kept [] all = tt
      kept (k ∷ keys) (here, later) =
          (known_before b.function b.address ws p.metadata k here, kept keys later)
  remembered b p true (err raised, s) e c f h =
      (record p { client = s }, refl, c, λ k known. known, λ cached mandatory. cc)
  remembered b p false (err raised, s) e c f h = let (ws, returned) = h e in cc

  load_block-Loaded :
      (b : RegisterBlock) (p : Profile C)
      → ReadsBlock C b
      → IsCoherent p
      → (settled : Bool) → is_settled C b p ≡ settled
      → Loaded (λ d. Serves b d true) p (skip_if settled (fetch_block C b) p)
  load_block-Loaded b p reads c true e = (
    p,
    refl,
    c,
    λ k known. known,
    λ cached mandatory.
        cached_known p.metadata (block_key b) p.cached_blocks
          (sym (ap (λ t. not t || any (same_block (block_key b)) p.cached_blocks) cached) ∙ e) c,
  )
  load_block-Loaded b p reads c false e =
      remembered b p b.optional (C.read b.function b.address b.count p.client) refl c
        (full b.function b.address b.count p.client) (λ m. reads m p.client)

  load_blocks :
      (blocks : List RegisterBlock) (p : Profile C)
      → All (ReadsBlock C) blocks
      → IsCoherent p
      → Loaded (λ d. All (λ b. Serves b d true) blocks) p (for_each blocks (load_block C) p)
  load_blocks [] p reads c = (p, refl, c, λ k known. known, tt)
  load_blocks (b ∷ blocks) p (reads, later) c =
      let (p', e, c', g, here) = load_block-Loaded b p reads c (is_settled C b p) refl in
      let (p'', e', c'', g', rest) = load_blocks blocks p' later c' in
      (
        p'',
        ap (proceed (λ done. for_each blocks (load_block C))) e ∙ e',
        c'',
        λ k known. g' k (g k known),
        (
          λ cached mandatory.
              grown p'.metadata p''.metadata (block_key b) g' (here cached mandatory),
          rest,
        ),
      )

  pub loads :
      (spec : DeviceProfileSpec) (p : Profile C)
      → All (ReadsBlock C) spec.blocks
      → IsCoherent p
      → Loaded (λ d. All (λ b. Serves b d true) spec.blocks) p (load_metadata C spec p)
  unfolding load_metadata
  loads spec p reads c = load_blocks spec.blocks p reads c

  -- A part of the running poll returned, with the words as they then stand.
  abbrev pub Read : (Words → Type 0) → Words → Result Words × Profile C → Type 0
  Read Post d r = (d' : Words) × (p' : Profile C) × (r ≡ (ok d', p')) × Grows d d' × Post d'

  found :
      (b : RegisterBlock) (d : Words) (p : Profile C) (optional : Bool)
      (r : Result (List ℕ) × C.State)
      → b.optional ≡ optional
      → ((ws : List ℕ) → r.0 ≡ ok ws → length ws ≡ b.count)
      → (b.optional ≡ false → Returns r.0)
      → Read
          (λ d'. Serves b d' false)
          d
          (proceed
            (λ words. pure (with_found C b words d))
            (settle optional (r.0, record p { client = r.1 })))
  found b d p optional (ok ws, s) e f h = (
    _,
    _,
    refl,
    stored-Grows b.function b.address ws d,
    λ cached mandatory. stored_block b ws d (f ws refl),
  )
  found b d p true (err raised, s) e f h = (d, _, refl, λ k known. known, λ cached mandatory. cc)
  found b d p false (err raised, s) e f h = let (ws, returned) = h e in cc

  live_block :
      (b : RegisterBlock) (d : Words) (p : Profile C) (cached : Bool)
      → b.cache ≡ cached
      → ReadsBlock C b
      → Read (λ d'. Serves b d' false) d (read_unless C cached b d p)
  live_block b d p true e reads = (d, p, refl, λ k known. known, λ live mandatory. cc)
  live_block b d p false e reads =
      found b d p b.optional (C.read b.function b.address b.count p.client) refl
        (full b.function b.address b.count p.client) (λ m. reads m p.client)

  pub reads_live :
      (blocks : List RegisterBlock) (d : Words) (p : Profile C)
      → All (ReadsBlock C) blocks
      → Read (λ d'. All (λ b. Serves b d' false) blocks) d (read_all_live C blocks d p)
  reads_live [] d p reads = (d, p, refl, λ k known. known, tt)
  reads_live (b ∷ blocks) d p (reads, later) =
      let (d', p', e, g, here) = live_block b d p b.cache refl reads in
      let (d'', p'', e', g', rest) = reads_live blocks d' p' later in
      (
        d'',
        p'',
        ap (proceed (λ words. read_all_live C blocks words)) e ∙ e',
        λ k known. g' k (g k known),
        (λ live mandatory. grown d' d'' (block_key b) g' (here live mandatory), rest),
      )
