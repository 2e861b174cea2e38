-- ===== src/Anchor/Assemble/Verified.antt =====
-- A bundle that the assembler builds passes the auditor's check of it.
use oursay.Base.{
  ℕ, suc, ◌+◌, ◌<◌, ◌≤◌, ◌≡◌, ◌⊎◌, inl, inr, refl, sym, ap, ◌∙◌, String, Bool, true, not, ◌&&◌,
  Option, none, some, List, [], ◌∷◌, length, all, All, get_elem?, arith, ltb, leb, ==_iff, str_eq,
  str_eq_iff, Bool-cases,
}
use oursay.Crypto.Hash.{Hasher, hash_leaf}
use oursay.Crypto.Merkle.{merkle_root, verify_merkle_proof}
use oursay.Crypto.Merkle.Complete.{verify_merkle_proof-merkle_proof}
use oursay.Crypto.Canonical.{Json, Members, str, obj, Codec, get_member, content_commitment}
use oursay.Anchor.Record.{AnchorRecord, BlockHeader, BlockBundle, BlockEntry, Reveal}
use oursay.Anchor.Assemble.{reveal_of, both, anchor_of, leaves_of, entries_from, assemble}
use oursay.Anchor.Verify.{
  EntryVerdict, BlockReport, EntryStatus, revealed, withheld, check_reveal, entry_status, is_ok,
  verify_entry, verify_entries, verify_block,
}
use oursay.Ledger.Store.{Store, StoredTx, filter, get_txs_by_seq_range}

zero_right : (n : ℕ) → n + 0 ≡ n
zero_right n = omega arith

zero_left : (n : ℕ) → 0 + n ≡ n
zero_left n = omega arith

suc_left : (n j : ℕ) → suc n + j ≡ n + suc j
suc_left n j = omega arith

module _ (h : Hasher) (c : Codec) where
  -- The envelope of a transaction that still has its plaintext parses to an object with the
  -- transaction's id and the commitment to that plaintext.
  pub record IsCommitted (t : StoredTx) : Type 0 where
    pub members : Members
    pub parses : c.parse t.envelope ≡ some (obj members)
    pub has_id : get_member "txId" members ≡ some (str t.tx_id)
    pub commits :
        (salt : String) (content : Json)
        → both t.salt t.content ≡ some (record { salt = salt; content = content })
        → get_member "contentHash" members
          ≡ some (str (content_commitment h c (some (str t.tx_id)) salt content))

  check_committed :
      (e : BlockEntry) (t : StoredTx) (r : Option Reveal)
      → e.envelope ≡ t.envelope
      → IsCommitted t
      → (r ≡ none) ⊎ (r ≡ both t.salt t.content)
      → (st : EntryStatus) × (check_reveal h c e r ≡ some st) × (is_ok st ≡ true)
  unfolding check_reveal
  check_committed e t none same k w = (withheld, refl, refl)
  check_committed e t (some r) same k (inl w) = absurd (cc)
  check_committed e t (some r) same k (inr w) =
      let x = k.commits r.salt r.content (sym w) in
      let hash = content_commitment h c (some (str t.tx_id)) r.salt r.content in
      (revealed, rw (same, k.parses, k.has_id, x, (str_eq_iff hash hash).1 refl) refl, refl)

  reveal_of-cases :
      (allow : Bool) (t : StoredTx)
      → (reveal_of allow t ≡ none) ⊎ (reveal_of allow t ≡ both t.salt t.content)
  unfolding reveal_of
  reveal_of-cases allow t = elim (Bool-cases (allow && not t.redacted && not t.erased)) [
    | inl y ↦ inr (rw y refl)
    | inr n ↦ inl (rw n refl)
  ]

  entry_status_ok :
      (e : BlockEntry) (a : AnchorRecord) (root : String)
      → a.from_seq < e.seq
      → e.seq ≤ a.to_seq
      → hash_leaf h (h.utf8 e.envelope) ≡ e.leaf_hash
      → verify_merkle_proof h e.leaf_hash e.merkle_proof root ≡ some true
      → ((st : EntryStatus) × (check_reveal h c e e.reveal ≡ some st) × (is_ok st ≡ true))
      → (st : EntryStatus) × (entry_status h c e a root ≡ some st) × (is_ok st ≡ true)
  unfolding entry_status
  entry_status_ok e a root lo hi leaf proof (st, r, ok) = (
    st,
    ground (
      arith,
      lo,
      hi,
      proof,
      r,
      (str_eq_iff (hash_leaf h (h.utf8 e.envelope)) e.leaf_hash).1 leaf,
    ),
    ok,
  )

  -- What the assembler knows of a transaction of the block.
  pub record IsListed (a : AnchorRecord) (t : StoredTx) : Type 0 where
    pub after : a.from_seq < t.seq
    pub up_to : t.seq ≤ a.to_seq
    pub committed : IsCommitted t

  entries_from-verified :
      (a : AnchorRecord) (root : String) (leaves : List String) (allow : Bool)
      → merkle_root h leaves ≡ some root
      → (i : ℕ) (txs : List StoredTx)
      → ((j : ℕ) → get_elem? leaves (i + j) ≡ get_elem? (leaves_of h c txs) j)
      → All (IsListed a) txs
      → (es : List BlockEntry) × (vs : List EntryVerdict) × (entries_from h c leaves allow i txs
          ≡ some es)
        × (length es ≡ length txs)
        × (verify_entries h c es a root ≡ some vs)
        × (all (λ v. is_ok v.status) vs ≡ true)
  unfolding entries_from verify_entries verify_entry
  entries_from-verified a root leaves allow m i [] f l = ([], [], refl, refl, refl, refl)
  entries_from-verified a root leaves allow m i (t ∷ rest) f l =
      let here : get_elem? leaves i ≡ some (hash_leaf h (h.utf8 t.envelope)) =
        rw (zero_right i) at (f 0) in
      let (p, q, accepted) = verify_merkle_proof-merkle_proof h leaves i m here in
      let (es, vs, e, n, v, ok) =
        entries_from-verified a root leaves allow m (suc i) rest
          (λ j. rw (suc_left i j) (f (suc j))) l.1 in
      let entry : BlockEntry = record {
        tx_id = t.tx_id;
        seq = t.seq;
        entity_id = t.entity_id;
        type = t.type;
        op = t.op;
        envelope = t.envelope;
        leaf_hash = hash_leaf h (h.utf8 t.envelope);
        merkle_proof = p;
        reveal = reveal_of allow t;
      } in
      let (st, s, good) = entry_status_ok entry a root l.0.after l.0.up_to refl accepted (
        check_committed entry t (reveal_of allow t) refl l.0.committed (reveal_of-cases allow t)) in
      (
        entry ∷ es,
        record { tx_id = t.tx_id; seq = t.seq; status = st } ∷ vs,
        rw (q, e) refl,
        ap suc n,
        rw (s, v) refl,
        rw (good, ok) refl,
      )

  listed :
      (b : BlockHeader) (prev : Option AnchorRecord) (rows : List StoredTx)
      → All IsCommitted rows
      → All (IsListed (anchor_of h c b prev)) (
          filter
            (λ t. str_eq t.chain_id b.chain_id && ltb b.from_seq t.seq && leb t.seq b.to_seq)
            rows)
  unfolding anchor_of
  listed b prev [] k = tt
  listed b prev (t ∷ rest) k =
      elim (Bool-cases
        (str_eq t.chain_id b.chain_id && ltb b.from_seq t.seq && leb t.seq b.to_seq)) [
          | inl y ↦ rw y (
            record { after = ground arith; up_to = ground arith; committed = k.0 },
            listed b prev rest k.1,
          )
          | inr n ↦ rw n (listed b prev rest k.1)
        ]

  -- If the transactions of the store have the root and the number that the header of a block says,
  -- and every envelope commits to its plaintext, then the block can be assembled, and the auditor
  -- finds the bundle in order against that root, whether it carries reveals or not.
  pub verify_block-assemble :
      (b : BlockHeader) (prev : Option AnchorRecord) (allow : Bool) (s : Store)
      → All IsCommitted s.rows
      → merkle_root h (leaves_of h c (get_txs_by_seq_range b.chain_id b.from_seq b.to_seq s))
        ≡ some b.bundle_merkle_root
      → length (get_txs_by_seq_range b.chain_id b.from_seq b.to_seq s) ≡ b.tx_count
      → (bundle : BlockBundle) × (r : BlockReport) × (assemble h c b prev allow s ≡ some bundle)
        × (verify_block h c bundle b.bundle_merkle_root ≡ some r)
        × (r.ok ≡ true)
  unfolding assemble verify_block get_txs_by_seq_range anchor_of
  verify_block-assemble b prev allow s k m n =
      let txs =
        filter (λ t. str_eq t.chain_id b.chain_id && ltb b.from_seq t.seq && leb t.seq b.to_seq)
          s.rows in
      let root = b.bundle_merkle_root in
      let (es, vs, e, len, v, ok) =
        entries_from-verified (anchor_of h c b prev) root (leaves_of h c txs) allow m 0 txs
          (λ j. rw (zero_left j) refl) (listed b prev s.rows k) in
      let same = (str_eq_iff root root).1 refl in
      let count = (==_iff (length txs) b.tx_count).1 n in
      let count' = (==_iff b.tx_count (length es)).1 (sym n ∙ sym len) in
      (
        record { anchor = anchor_of h c b prev; entries = es },
        record {
          block_height = b.block_height;
          ok = true;
          root_matches = true;
          tx_count_ok = true;
          verdicts = vs;
        },
        rw (m, same, count, e) refl,
        rw (v, same, count', ok) refl,
        refl,
      )
