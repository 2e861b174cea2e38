-- ===== src/Anchor/Verify/Entries.antt =====
-- What `verifyEntry` and `verifyBlock` establish about the entries that they accept.
use oursay.Base.{
  ℕ, ◌≤◌, ◌<◌, ◌≡◌, ◌⊎◌, inl, inr, sym, ap, ◌∙◌, zero, suc, String, Bool, true, some, List, [], ◌∷◌,
  length, map, get_elem?, all, All, arith, str_eq_iff, str_eq, >>=-eq-some, some_inj, ◌==◌, ==_iff,
  ◌&&◌,
}
use oursay.Crypto.Hash.{Hasher, Lawful, Collides, hash_leaf}
use oursay.Crypto.Merkle.{merkle_root, verify_merkle_proof}
use oursay.Crypto.Merkle.Inputs.{root_inputs, check_inputs}
use oursay.Crypto.Merkle.Sound.{verify_merkle_proof_sound}
use oursay.Crypto.Canonical.{Codec}
use oursay.Anchor.Record.{AnchorRecord, BlockEntry, BlockBundle}
use oursay.Anchor.Verify.{
  EntryStatus, EntryVerdict, is_ok, BlockReport, entry_status, verify_entry, verify_entries,
  verify_block,
}

and_split : (a b : Bool) → (a && b) ≡ true → (a ≡ true) × (b ≡ true)
and_split a b e = ground arith

module _ (h : Hasher) (c : Codec) where
  -- What holds of an entry whose verdict is ok.
  pub record IsIncluded (entry : BlockEntry) (anchor : AnchorRecord) (root : String) : Type 0 where
    pub after : anchor.from_seq < entry.seq
    pub up_to : entry.seq ≤ anchor.to_seq
    pub leaf_of_envelope : hash_leaf h (h.utf8 entry.envelope) ≡ entry.leaf_hash
    pub proof_accepted : verify_merkle_proof h entry.leaf_hash entry.merkle_proof root ≡ some true

  entry_status-IsIncluded :
      (entry : BlockEntry) (anchor : AnchorRecord) (root : String) {st : EntryStatus}
      → entry_status h c entry anchor root ≡ some st
      → is_ok st ≡ true
      → IsIncluded entry anchor root
  unfolding entry_status
  entry_status-IsIncluded entry anchor root e o = record {
    after = ground arith;
    up_to = ground arith;
    leaf_of_envelope = (str_eq_iff _ _).0 (ground arith);
    proof_accepted = ground arith;
  }

  verify_entries-IsIncluded :
      (entries : List BlockEntry) (anchor : AnchorRecord) (root : String) {vs : List EntryVerdict}
      → verify_entries h c entries anchor root ≡ some vs
      → all (λ v. is_ok v.status) vs ≡ true
      → All (λ e. IsIncluded e anchor root) entries
  unfolding verify_entries verify_entry
  verify_entries-IsIncluded [] anchor root e o = tt
  verify_entries-IsIncluded (x ∷ rest) anchor root e o =
      let (v, p, e') = >>=-eq-some (verify_entry h c x anchor root) _ e in
      let (vs, q, e'') = >>=-eq-some (verify_entries h c rest anchor root) _ e' in
      let (st, f, g) = >>=-eq-some (entry_status h c x anchor root) _ p in
      let oks : all (λ w. is_ok w.status) (v ∷ vs) ≡ true = rw (sym (some_inj e'')) at o in
      let both = and_split (is_ok v.status) (all (λ w. is_ok w.status) vs) oks in
      let same = ap (λ (w : EntryVerdict). is_ok w.status) (some_inj g) in
      (
        entry_status-IsIncluded x anchor root f (same ∙ both.0),
        verify_entries-IsIncluded rest anchor root q both.1,
      )

-- What an auditor learns of an entry: its sequence number is in the block's range, and its envelope
-- is one of the envelopes of the block, unless an input that is hashed to check the entry collides
-- with one that was hashed for the root over the envelopes.
pub record IsGenuine (h : Hasher) (envelopes : List String) (anchor : AnchorRecord)
    (entry : BlockEntry) : Type 0 where
  pub after : anchor.from_seq < entry.seq
  pub up_to : entry.seq ≤ anchor.to_seq
  pub included :
      ((i : ℕ) × (get_elem? envelopes i ≡ some entry.envelope))
      ⊎ Collides h
          (check_inputs h (h.utf8 entry.envelope) entry.merkle_proof)
          (root_inputs h (map h.utf8 envelopes))

module _ (h : Hasher) (law : Lawful h) (c : Codec) where
  get_elem?-utf8 :
      (envelopes : List String) (i : ℕ) {envelope : String}
      → get_elem? (map h.utf8 envelopes) i ≡ some (h.utf8 envelope)
      → get_elem? envelopes i ≡ some envelope
  get_elem?-utf8 [] i e = absurd (cc)
  get_elem?-utf8 (x ∷ rest) zero e = ap some (law.utf8_injective _ _ (some_inj e))
  get_elem?-utf8 (x ∷ rest) (suc i) e = get_elem?-utf8 rest i e

  included-IsGenuine :
      (first : String) (others : List String) (anchor : AnchorRecord) (root : String)
      → merkle_root h (map (hash_leaf h) (map h.utf8 (first ∷ others))) ≡ some root
      → (entries : List BlockEntry) → All (λ e. IsIncluded h c e anchor root) entries
      → All (IsGenuine h (first ∷ others) anchor) entries
  included-IsGenuine first others anchor root r [] a = tt
  included-IsGenuine first others anchor root r (x ∷ rest) a =
      let accepted : verify_merkle_proof h (hash_leaf h (h.utf8 x.envelope)) x.merkle_proof root
          ≡ some true =
        rw (a.0.leaf_of_envelope) a.0.proof_accepted in
      (
        record {
          after = a.0.after;
          up_to = a.0.up_to;
          included =
              elim (verify_merkle_proof_sound h law (h.utf8 first) (map h.utf8 others)
                (h.utf8 x.envelope) x.merkle_proof root r accepted) [
                  | inr col ↦ inr col
                  | inl (i, g) ↦ inl (i, get_elem?-utf8 (first ∷ others) i g)
                ];
        },
        included-IsGenuine first others anchor root r rest a.1,
      )

  -- If a bundle is found to be in order against the root over one or more envelopes, then it claims
  -- that root and as many transactions as it ships entries, and every entry has a sequence number in
  -- the block's range and the envelope of one of those envelopes, or else an input that is hashed to
  -- check this entry collides with one that was hashed for the root. Nothing is assumed of the
  -- bundle.
  pub verify_block_sound :
      (first : String) (others : List String) (bundle : BlockBundle) (root : String)
      {r : BlockReport}
      → merkle_root h (map (hash_leaf h) (map h.utf8 (first ∷ others))) ≡ some root
      → verify_block h c bundle root ≡ some r
      → r.ok ≡ true
      → (bundle.anchor.bundle_merkle_root ≡ root)
        × (bundle.anchor.tx_count ≡ length bundle.entries)
        × All (IsGenuine h (first ∷ others) bundle.anchor) bundle.entries
  unfolding verify_block
  verify_block_sound first others bundle root m e o =
      let (vs, p, q) = >>=-eq-some (verify_entries h c bundle.entries bundle.anchor root) _ e in
      let claims = str_eq bundle.anchor.bundle_merkle_root root in
      let counts = bundle.anchor.tx_count == length bundle.entries in
      let ok : (claims && counts && all (λ v. is_ok v.status) vs) ≡ true =
        ap (λ (x : BlockReport). x.ok) (some_inj q) ∙ o in
      let (both, oks) = and_split (claims && counts) (all (λ v. is_ok v.status) vs) ok in
      let (same, count) = and_split claims counts both in
      let included = verify_entries-IsIncluded h c bundle.entries bundle.anchor root p oks in
      (
        (str_eq_iff _ _).0 same,
        (==_iff _ _).0 count,
        included-IsGenuine first others bundle.anchor root m bundle.entries included,
      )
