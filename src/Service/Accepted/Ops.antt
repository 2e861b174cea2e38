-- ===== src/Service/Accepted/Ops.antt =====
-- `appendPlatformOps` extends the rows by one that begins an entity or goes on from its head.
use oursay.Base.{
  ℕ, ◌≡◌, refl, inl, inr, String, Bool, true, false, ◌&&◌, none, some, List, Option-cases, arith,
  and_left, and_right,
}
use oursay.Crypto.Hash.{Hasher}
use oursay.Crypto.Canonical.{Json, Codec}
use oursay.Schema.Types.{TxEnvelope, Op}
use oursay.Ledger.Store.{StoredTx}
use oursay.Record.Append.{stored_row, is_null}
use oursay.Identity.Curve.{Curve}
use oursay.Identity.Envelope.{given, is_given}
use oursay.Service.State.{get_head_tx}
use oursay.Service.Config.{Config, Db, Moment, new_tx}
use oursay.Service.Signed.{is_absent}
use oursay.Service.Ops.{
  append_platform_ops, ops_ok, check_ops, is_platform_envelope, is_attested, ops_head, head_ok,
}
use oursay.Service.Accepted.{Extends, Outcome, is_absent-none, commit-Outcome}
use oursay.Service.Accepted.Signed.{is_given-none}

module _ (h : Hasher) (codec : Codec) (curve : Curve) (cfg : Config) where
  is_platform_envelope-no_nullifier :
      (env : TxEnvelope) (pub_hex : String)
      → is_platform_envelope h codec curve cfg env pub_hex ≡ true
      → given env.nullifier ≡ none
  unfolding is_platform_envelope
  is_platform_envelope-no_nullifier env pub_hex e = is_given-none env.nullifier (ground (arith, e))

  -- A create begins an entity, and an update goes on from a platform operation.
  head_ok-from :
      (op : Op) (env : TxEnvelope) (salt pub_hex : String) (content : Json) (rows : List StoredTx)
      (seq now : ℕ)
      → env.op ≡ op
      → given env.nullifier ≡ none
      → head_ok h codec curve cfg op env pub_hex rows ≡ true
      → Extends rows (stored_row h codec (new_tx env salt content) cfg.chain_id seq now)
  unfolding stored_row new_tx
  head_ok-from Op.create env salt pub_hex content rows seq now is_op no_nullifier e =
      let found = get_head_tx env.entity_id rows in
      let e' : (is_null env.prev_hash && is_absent found) ≡ true = e in
      record {
        from = inl (record {
          is_create = is_op;
          is_new = is_absent-none found (ground (arith, e'));
          unclaimed = λ p n at_parent bears. absurd (cc);
        });
        deletes_no_ops = λ del. let no_delete : false ≡ true = rw is_op at del in absurd (cc);
      }
  head_ok-from Op.update env salt pub_hex content rows seq now is_op no_nullifier e =
      elim (Option-cases (get_head_tx env.entity_id rows)) [
        | inl missing ↦ let stuck : false ≡ true = rw missing at e in absurd (cc)
        | inr (head, is_head) ↦
            let e' : ops_head h codec curve cfg env pub_hex (some head) ≡ true = rw is_head at e in
            record {
              from = inr (record {
                head = head;
                is_head = is_head;
                alive = inr (ground (arith, e'));
                no_create = λ c. cc (is_op, c);
                carried = inl no_nullifier;
              });
              deletes_no_ops = λ del. let no_delete : false ≡ true = rw is_op at del in absurd (cc);
            }
      ]
  head_ok-from Op.delete env salt pub_hex content rows seq now is_op no_nullifier e = absurd (cc)

  check_ops-Extends :
      (env : TxEnvelope) (salt : String) (content : Json) (verify_admin : Bool) (m : Moment)
      (db : Db) (pub_hex : String) (seq : ℕ)
      → check_ops h codec curve cfg env salt content verify_admin m db pub_hex ≡ true
      → Extends db.store.rows (stored_row h codec (new_tx env salt content) cfg.chain_id seq m.now)
  check_ops-Extends env salt content verify_admin m db pub_hex seq e =
      let headed = head_ok h codec curve cfg env.op env pub_hex db.store.rows in
      let attested = is_attested h codec curve cfg env salt content verify_admin m in
      let platform = is_platform_envelope h codec curve cfg env pub_hex in
      let e' : (platform && (attested && headed)) ≡ true = e in
      let fields : platform ≡ true = and_left platform (attested && headed) e' in
      let last : headed ≡ true =
        and_right attested headed (and_right platform (attested && headed) e') in
      head_ok-from env.op env salt pub_hex content db.store.rows seq m.now refl
        (is_platform_envelope-no_nullifier env pub_hex fields) last

  pub append_platform_ops-Outcome :
      (env : TxEnvelope) (salt : String) (content : Json) (verify_admin : Bool) (m : Moment)
      (db : Db)
      → Outcome db.store.rows
          (append_platform_ops h codec curve cfg env salt content verify_admin m db).0.store.rows
  unfolding append_platform_ops
  append_platform_ops-Outcome env salt content verify_admin m db =
      commit-Outcome h codec cfg (ops_ok h codec curve cfg env salt content verify_admin m db) env
        salt content m db
        (λ seq passed. elim (Option-cases (given cfg.platform_pub_key_hex)) [
          | inl missing ↦ let stuck : false ≡ true = rw (missing, ops_ok) at passed in absurd (cc)
          | inr (pub_hex, configured) ↦
              let checked =
                check_ops h codec curve cfg env salt content verify_admin m db pub_hex in
              let both : (is_given cfg.platform_priv_key_hex && checked) ≡ true =
                rw (configured, ops_ok) at passed in
              check_ops-Extends env salt content verify_admin m db pub_hex seq
                (and_right (is_given cfg.platform_priv_key_hex) checked both)
        ])
