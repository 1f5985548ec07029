-- ===== src/Catalog/Profile/Coherent.antt =====
-- The cache of a profile holds every word of the blocks that count as cached
-- (src/morningstar_modbus/catalog/profile.py).
use morningstar_modbus_api.Prelude.{
  ℕ, ◌+◌, ◌<◌, ◌≡◌, Bool, true, false, not, Option, none, some, List, [], ◌∷◌, ◌||◌, length, arith,
  All, map,
}
use morningstar_modbus_api.Prelude.Text.{Text}
use morningstar_modbus_api.Prelude.Floats.{Floats}
use morningstar_modbus_api.Actions.{for_each, tolerate, pure, lift, ◌>>=◌}
use morningstar_modbus_api.Actions.Runs.{
  Keeps, Found, Keeps->>=, Keeps->>, Keeps-for_each, Keeps-tolerate, Keeps-skip_if,
}
use morningstar_modbus_api.Catalog.Types.{
  RegisterFunction, RegisterCategory, RegisterBlock, RegisterSpec, DeviceProfileSpec, same_category,
}
use morningstar_modbus_api.Catalog.Compatibility.{Firmware, effective_items}
use morningstar_modbus_api.Catalog.Decode.{RegisterFloats}
use morningstar_modbus_api.Catalog.Words.{BlockKey, Words, block_key, store_words}
use morningstar_modbus_api.Catalog.Words.Lookup.{
  IsKnown, store_words-IsKnown, store_words-IsKnown_before,
}
use morningstar_modbus_api.Catalog.Profile.{
  CatalogProfile, Profile, read_words, read_block, remember_block, fetch_block, load_block,
  load_metadata, is_settled, remember_field, fetch_field, is_known, read_live, read_unless,
  read_all_live, with_found, ungated, gate_block, read_metadata, poll, report,
}
use morningstar_modbus_api.Transports.Client.{ReadOnlyModbusClient, AnswersInFull}

abbrev pub IsKnownBlock : Words → BlockKey → Type 0
IsKnownBlock d (f, a, n) = (i : ℕ) → i < n → IsKnown d (f, a + i)

abbrev pub IsCoherent : {S : Type 0} → CatalogProfile S → Type 0
IsCoherent p = All (IsKnownBlock p.metadata) p.cached_blocks

pub known_before :
    (f : RegisterFunction) (address : ℕ) (ws : List ℕ) (d : Words) (k : BlockKey)
    → IsKnownBlock d k
    → IsKnownBlock (store_words f address ws d) k
known_before f address ws d (g, a, n) h i le =
    store_words-IsKnown_before f address ws d (g, a + i) (h i le)

All-known_before :
    (f : RegisterFunction) (address : ℕ) (ws : List ℕ) (d : Words) (keys : List BlockKey)
    → All (IsKnownBlock d) keys
    → All (IsKnownBlock (store_words f address ws d)) keys
All-known_before f address ws d [] h = tt
All-known_before f address ws d (k ∷ keys) (here, later) =
    (known_before f address ws d k here, All-known_before f address ws d keys later)

pub stored_block :
    (b : RegisterBlock) (ws : List ℕ) (d : Words)
    → length ws ≡ b.count
    → IsKnownBlock (store_words b.function b.address ws d) (block_key b)
stored_block b ws d full i le =
    store_words-IsKnown b.function b.address ws d i (omega (arith, full, le))

module _ (C : ReadOnlyModbusClient) (full : AnswersInFull C) where
  -- The words of a read, in full.
  abbrev pub InFull : ℕ → List ℕ → Type 0
  InFull count ws = length ws ≡ count

  read_words-Keeps :
      (f : RegisterFunction) (address count : ℕ)
      → Keeps IsCoherent (InFull count) (read_words C f address count)
  read_words-Keeps f address count p c = (c, λ ws e. full f address count p.client ws e)

  remember_block-Keeps :
      (b : RegisterBlock) (words : Option (List ℕ))
      → Found (InFull b.count) words
      → Keeps IsCoherent (λ u. Unit) (remember_block C b words)
  remember_block-Keeps b none h p c = (c, λ u e. tt)
  remember_block-Keeps b (some ws) h p c = (
    (
      stored_block b ws p.metadata h,
      All-known_before b.function b.address ws p.metadata p.cached_blocks c,
    ),
    λ u e. tt,
  )

  tolerated-Keeps :
      (optional : Bool) (f : RegisterFunction) (address count : ℕ)
      → Keeps IsCoherent (Found (InFull count)) (tolerate optional (read_words C f address count))
  tolerated-Keeps optional f address count =
      Keeps-tolerate IsCoherent (InFull count) optional (read_words C f address count)
        (read_words-Keeps f address count)

  fetch_block-Keeps : (b : RegisterBlock) → Keeps IsCoherent (λ u. Unit) (fetch_block C b)
  fetch_block-Keeps b =
      Keeps->>= IsCoherent (Found (InFull b.count)) (λ u. Unit)
        (tolerate b.optional (read_block C b)) (remember_block C b)
        (tolerated-Keeps b.optional b.function b.address b.count) (remember_block-Keeps b)

  load_block-Keeps : (b : RegisterBlock) → Keeps IsCoherent (λ u. Unit) (load_block C b)
  load_block-Keeps b p c =
      Keeps-skip_if IsCoherent (is_settled C b p) (fetch_block C b) (fetch_block-Keeps b) p c

  pub load_metadata-Keeps :
      (spec : DeviceProfileSpec) → Keeps IsCoherent (λ u. Unit) (load_metadata C spec)
  unfolding load_metadata
  load_metadata-Keeps spec = Keeps-for_each IsCoherent spec.blocks (load_block C) load_block-Keeps

  remember_field-Keeps :
      (r : RegisterSpec) (words : Option (List ℕ))
      → Keeps IsCoherent (λ u. Unit) (remember_field C r words)
  remember_field-Keeps r none p c = (c, λ u e. tt)
  remember_field-Keeps r (some ws) p c =
      (All-known_before r.function r.address ws p.metadata p.cached_blocks c, λ u e. tt)

  fetch_field-Keeps : (r : RegisterSpec) → Keeps IsCoherent (λ u. Unit) (fetch_field C r)
  fetch_field-Keeps r p c =
      Keeps-skip_if IsCoherent
        (not (same_category r.category RegisterCategory.metadata) || is_known C r p) _
        (Keeps->>= IsCoherent (Found (InFull r.words)) (λ u. Unit)
          (tolerate true (read_words C r.function r.address r.words)) (remember_field C r)
          (tolerated-Keeps true r.function r.address r.words)
          (λ words q. remember_field-Keeps r words))
        p c

  read_live-Keeps :
      (b : RegisterBlock) (d : Words) (cached : Bool)
      → Keeps IsCoherent (λ d'. Unit) (read_unless C cached b d)
  read_live-Keeps b d true p c = (c, λ u k. tt)
  read_live-Keeps b d false p c =
      Keeps->>= IsCoherent (Found (InFull b.count)) (λ d'. Unit)
        (tolerate b.optional (read_block C b)) (λ words. pure (with_found C b words d))
        (tolerated-Keeps b.optional b.function b.address b.count) (λ words q p' c'. (c', λ a k. tt))
        p c

  read_all_live-Keeps :
      (blocks : List RegisterBlock) (d : Words)
      → Keeps IsCoherent (λ d'. Unit) (read_all_live C blocks d)
  read_all_live-Keeps [] d p c = (c, λ u k. tt)
  read_all_live-Keeps (b ∷ blocks) d p c =
      Keeps->>= IsCoherent (λ d'. Unit) (λ d'. Unit) (read_live C b d)
        (λ d'. read_all_live C blocks d') (read_live-Keeps b d b.cache)
        (λ d' u. read_all_live-Keeps blocks d') p c

  module _ (F : Floats) (R : RegisterFloats F) where
    -- Whatever a client that answers in full does, and wherever the call raises, a read of the
    -- metadata leaves every word of every block that counts as cached in the cache.
    pub read_metadata-IsCoherent :
        (spec : DeviceProfileSpec) (p : Profile C)
        → IsCoherent p
        → IsCoherent (read_metadata F R C spec p).1
    unfolding read_metadata
    read_metadata-IsCoherent spec p c =
        (Keeps->> IsCoherent (λ v. Unit) (load_metadata C spec) _ (load_metadata-Keeps spec)
          (Keeps->> IsCoherent (λ v. Unit) (for_each spec.registers (fetch_field C)) _
            (Keeps-for_each IsCoherent spec.registers (fetch_field C) fetch_field-Keeps)
            (λ p' c'. (c', λ v e. tt)))
          p c).0

    -- The same of a poll, at any firmware.
    pub poll-IsCoherent :
        (show : F.Real → Text) (spec : DeviceProfileSpec) (firmware : Firmware) (p : Profile C)
        → IsCoherent p
        → IsCoherent (poll F R C show spec firmware p).1
    unfolding poll
    poll-IsCoherent show spec firmware p c =
        (Keeps->> IsCoherent (λ v. Unit) (load_metadata C spec) _ (load_metadata-Keeps spec)
          (λ p' c'.
            Keeps->>= IsCoherent (λ b. Unit) (λ v. Unit)
              (lift (effective_items (map gate_block spec.blocks) firmware))
              (λ blocks. read_all_live C (map ungated blocks) p'.metadata >>= λ words.
                lift (report F R show spec firmware words))
              (λ q d. (d, λ b e. tt))
              (λ blocks u.
                Keeps->>= IsCoherent (λ d. Unit) (λ v. Unit)
                  (read_all_live C (map ungated blocks) p'.metadata)
                  (λ words. lift (report F R show spec firmware words))
                  (read_all_live-Keeps (map ungated blocks) p'.metadata)
                  (λ words u' q d. (d, λ v e. tt)))
              p' c')
          p c).0
