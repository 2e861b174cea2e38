-- ===== src/Ledger/Settler/Links.antt =====
-- What a settlement does to the blocks of the ledger: the block that it writes continues the chain.
use oursay.Base.{
  ℕ, ◌≡◌, refl, sym, ap, ◌∙◌, ◌+◌, String, Option, none, some, List, [], ◌∷◌, length, arith, inl,
  inr, suc, Bool-cases, Option-cases, >>=-eq-some, some_inj, str_eq, str_eq_iff,
}
use oursay.Crypto.Hash.{Hasher}
use oursay.Anchor.Record.{BlockHeader, ImmudbRootRef}
use oursay.Anchor.Tip.{compute_chain_tip_hash}
use oursay.Ledger.Store.{StoredTx, take}
use oursay.Ledger.Connector.{Ledger, fetch_latest_block}
use oursay.Ledger.Connector.Chained.{
  Continues, Chained, IsChained, newest, chain_blocks, height_of, from_seq_of, tip_of,
  fetch_latest_block-newest, append_block-blocks, append_tx_batch-blocks,
}
use oursay.Ledger.Settler.{
  World, Outcome, idle, thrown, settled, Delivery, batch_root, block_header, committed_rows,
  commit_block, commit_or_throw, append_and_commit, settle_batch, settle_block, next_batch,
  last_seq,
}

module _ (h : Hasher) (immudb_state : Ledger → ImmudbRootRef) (chain_id : String) where
  -- What a settlement with this outcome makes of the blocks of the ledger.
  abbrev pub Settles : World → World → Outcome → Type 0
  Settles w w' idle = w'.ledger.blocks ≡ w.ledger.blocks
  Settles w w' thrown = w'.ledger.blocks ≡ w.ledger.blocks
  Settles w w' (settled b) =
      Continues h chain_id (newest (chain_blocks chain_id w.ledger.blocks)) b
      × (w'.ledger.blocks ≡ b ∷ w.ledger.blocks)

  block_header-Continues :
      (prev : Option BlockHeader) (root : String) (batch : List StoredTx) (to_seq : ℕ) (at : String)
      (l : Ledger) {b : BlockHeader}
      → block_header h immudb_state chain_id prev root batch to_seq at l ≡ some b
      → Continues h chain_id prev b
  unfolding block_header
  block_header-Continues prev root batch to_seq at l e =
      let (tip, p, q) = >>=-eq-some (compute_chain_tip_hash h (tip_of prev) root) _ e in
      rw (← some_inj q)
        (record { chain = refl; height = refl; seq = refl; root = refl; prev_tip = refl; tip = p })

  commit_block-blocks :
      (w : World) (b : BlockHeader) (batch : List StoredTx)
      → Chained h chain_id (chain_blocks chain_id w.ledger.blocks)
      → Continues h chain_id (newest (chain_blocks chain_id w.ledger.blocks)) b
      → (commit_block b batch w).ledger.blocks ≡ b ∷ w.ledger.blocks
  unfolding commit_block
  commit_block-blocks w b batch c n =
      append_block-blocks h chain_id w.ledger b n.chain c (omega (arith, n.height))

  -- The writes that follow a delivered batch.
  commit_or_throw-Settles :
      (header : Option BlockHeader) (batch : List StoredTx) (w w' : World)
      → w'.ledger.blocks ≡ w.ledger.blocks
      → Chained h chain_id (chain_blocks chain_id w.ledger.blocks)
      → ((b : BlockHeader)
          → header ≡ some b
          → Continues h chain_id (newest (chain_blocks chain_id w.ledger.blocks)) b)
      → Settles w (commit_or_throw header batch w').0 (commit_or_throw header batch w').1
  commit_or_throw-Settles none batch w w' same c f = same
  commit_or_throw-Settles (some b) batch w w' same c f = (
    f b refl,
    commit_block-blocks w' b batch (rw same c) (rw same (f b refl))
        ∙ ap (λ (bs : List BlockHeader). b ∷ bs) same,
  )

  append_and_commit-Settles :
      (at : String) (d : Delivery) (prev : Option BlockHeader) (root : String) (w : World)
      (t : StoredTx) (rest : List StoredTx)
      → Chained h chain_id (chain_blocks chain_id w.ledger.blocks)
      → prev ≡ newest (chain_blocks chain_id w.ledger.blocks)
      → Settles w
          (append_and_commit h immudb_state chain_id at d prev root w t rest).0
          (append_and_commit h immudb_state chain_id at d prev root w t rest).1
  unfolding append_and_commit
  append_and_commit-Settles at (some written) prev root w t rest c e =
      append_tx_batch-blocks
        (committed_rows chain_id (height_of prev + 1) (take written (t ∷ rest))) w.ledger
  append_and_commit-Settles at none prev root w t rest c e =
      commit_or_throw-Settles _ (t ∷ rest) w _
        (append_tx_batch-blocks (committed_rows chain_id (height_of prev + 1) (t ∷ rest)) w.ledger)
        c (λ b q. rw (sym e) (block_header-Continues prev root (t ∷ rest) (last_seq t rest) at _ q))

  settle_batch-Settles :
      (at : String) (d : Delivery) (prev : Option BlockHeader) (w : World) (batch : List StoredTx)
      → Chained h chain_id (chain_blocks chain_id w.ledger.blocks)
      → prev ≡ newest (chain_blocks chain_id w.ledger.blocks)
      → Settles w
          (settle_batch h immudb_state chain_id at d prev w batch).0
          (settle_batch h immudb_state chain_id at d prev w batch).1
  unfolding settle_batch
  settle_batch-Settles at d prev w [] c e = refl
  settle_batch-Settles at d prev w (t ∷ rest) c e = elim (Option-cases (batch_root h (t ∷ rest))) [
    | inl no_root ↦ rw (no_root, settle_batch) refl
    | inr (root, q) ↦ rw (q, settle_batch) (append_and_commit-Settles at d prev root w t rest c e)
  ]

  -- A settlement on a ledger whose chains are linked either leaves the blocks of the ledger as they
  -- are, whether it is idle or throws, or puts one block in front that continues its own chain:
  -- the next height, the range from where the tip ends, the root and the tip of the tip, and the
  -- folded tip.
  pub settle_block-Settles :
      (limit : ℕ) (at : String) (d : Delivery) (w : World)
      → IsChained h w.ledger
      → Settles w
          (settle_block h immudb_state limit chain_id at d w).0
          (settle_block h immudb_state limit chain_id at d w).1
  unfolding settle_block
  settle_block-Settles limit at d w c =
      let prev = fetch_latest_block chain_id w.ledger in
      let found =
        next_batch (suc (length w.store.rows)) chain_id limit (from_seq_of prev) w.ledger w.store in
      settle_batch-Settles at d prev (record w { store = found.0 }) found.1 (c chain_id)
        (fetch_latest_block-newest h chain_id w.ledger (c chain_id))

  extended :
      (b : BlockHeader) (bs : List BlockHeader) (id : String)
      → ((id : String) → Chained h id (chain_blocks id bs))
      → Continues h chain_id (newest (chain_blocks chain_id bs)) b
      → Chained h id (chain_blocks id (b ∷ bs))
  extended b bs id c n = elim (Bool-cases (str_eq b.chain_id id)) [
    | inl t ↦
        let same : chain_id ≡ id = sym n.chain ∙ (str_eq_iff b.chain_id id).0 t in
        rw t (rw same at n, c id)
    | inr f ↦ rw f (c id)
  ]

  Settles-IsChained :
      (w w' : World) (o : Outcome) → IsChained h w.ledger → Settles w w' o → IsChained h w'.ledger
  Settles-IsChained w w' idle c s id = rw s (c id)
  Settles-IsChained w w' thrown c s id = rw s (c id)
  Settles-IsChained w w' (settled b) c s id = rw s.1 (extended b w.ledger.blocks id c s.0)

  -- A settlement leaves every chain on the ledger linked.
  pub settle_block-IsChained :
      (limit : ℕ) (at : String) (d : Delivery) (w : World)
      → IsChained h w.ledger
      → IsChained h (settle_block h immudb_state limit chain_id at d w).0.ledger
  settle_block-IsChained limit at d w c =
      let r = settle_block h immudb_state limit chain_id at d w in
      Settles-IsChained w r.0 r.1 c (settle_block-Settles limit at d w c)
