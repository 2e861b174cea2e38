-- ===== src/Service/Accepted/Unsigned.antt =====
-- The unsigned operations extend the rows by one that begins an entity or goes on from its head.
use oursay.Base.{ℕ, refl, inl, inr, String, Bool, true, Option, none, some, Option-cases}
use oursay.Crypto.Hash.{Hasher}
use oursay.Crypto.Canonical.{Json, Codec}
use oursay.Schema.Types.{RecordType, Op}
use oursay.Record.Append.{stored_row}
use oursay.Identity.Curve.{Curve}
use oursay.Service.State.{get_head_tx}
use oursay.Service.Config.{Config, Db, Moment, guard, guard-eq-some, new_tx}
use oursay.Service.Validate.{ParentRef, validate_create, validate_update, validate_delete}
use oursay.Service.Signed.{is_absent, delete_marker}
use oursay.Service.Unsigned.{
  Draw, AppendSpec, create, update, delete, append_spec, envelope_of, revision, may_create,
}
use oursay.Service.Accepted.{
  Extends, Outcome, kept, is_absent-none, commit-Outcome, op_allowed-delete,
}
use oursay.Service.Accepted.Validated.{validate_update-IsValid, validate_delete-IsValid}

module _ (h : Hasher) (codec : Codec) (curve : Curve) (cfg : Config) where
  spec-Outcome :
      (ok : Bool) (spec : AppendSpec) (d : Draw) (m : Moment) (db : Db)
      → ((seq : ℕ)
          → Extends db.store.rows (
              stored_row h codec
                (new_tx (envelope_of h codec curve cfg spec d) d.salt spec.content)
                cfg.chain_id
                seq
                m.now))
      → Outcome db.store.rows (append_spec h codec curve cfg ok spec d m db).0.store.rows
  unfolding append_spec
  spec-Outcome ok spec d m db ext =
      commit-Outcome h codec cfg ok (envelope_of h codec curve cfg spec d) d.salt spec.content m db
        (λ seq passed. ext seq)

  pub create-Outcome :
      (t : RecordType) (author : String) (content : Json) (parent : Option ParentRef)
      (entity_id : String) (d : Draw) (m : Moment) (db : Db)
      → Outcome db.store.rows
          (create h codec curve cfg t author content parent entity_id d m db).0.store.rows
  unfolding create stored_row new_tx envelope_of
  create-Outcome t author content parent entity_id d m db =
      let rows = db.store.rows in
      let found = get_head_tx entity_id rows in
      let checked =
        guard (is_absent found)
          (validate_create h codec curve cfg t content parent entity_id none rows) in
      elim (Option-cases checked) [
        | inl refused ↦ rw (refused, create) (kept refl)
        | inr (r, e) ↦
            let (is_new, resolved) = guard-eq-some (is_absent found) _ e in
            rw (e, create)
              (spec-Outcome (may_create h codec curve cfg r t author parent rows)
                (record {
                  type = t;
                  entity_id = entity_id;
                  op = Op.create;
                  author = author;
                  parent = parent;
                  parent_revision_hash = r.parent_revision_hash;
                  parent_revision_tx_id = r.parent_revision_tx_id;
                  prev_hash = none;
                  content = content;
                })
                d m db
                (λ seq. record {
                  from = inl (record {
                    is_create = refl;
                    is_new = is_absent-none found is_new;
                    unclaimed = λ p n at_parent bears. absurd (cc);
                  });
                  deletes_no_ops = λ del. absurd (cc);
                }))
      ]

  pub update-Outcome :
      (entity_id author : String) (content : Json) (d : Draw) (m : Moment) (db : Db)
      → Outcome db.store.rows
          (update h codec curve cfg entity_id author content d m db).0.store.rows
  unfolding update stored_row new_tx envelope_of
  update-Outcome entity_id author content d m db =
      let rows = db.store.rows in
      elim (Option-cases
        (validate_update h codec curve cfg entity_id author (some content) m.now none rows)) [
          | inl refused ↦ rw (refused, update) (kept refl)
          | inr (v, e) ↦
              let valid =
                validate_update-IsValid h codec curve cfg entity_id author (some content) m.now none
                  rows e in
              rw (e, update)
                (spec-Outcome true
                  (revision h codec curve cfg v.0 entity_id Op.update author content) d m db
                  (λ seq. record {
                    from = inr (record {
                      head = v.0;
                      is_head = valid.is_head;
                      alive = inl valid.alive;
                      no_create = λ c. absurd (cc);
                      carried = inl refl;
                    });
                    deletes_no_ops = λ del. absurd (cc);
                  }))
        ]

  pub delete-Outcome :
      (entity_id author : String) (d : Draw) (m : Moment) (db : Db)
      → Outcome db.store.rows (delete h codec curve cfg entity_id author d m db).0.store.rows
  unfolding delete stored_row new_tx envelope_of
  delete-Outcome entity_id author d m db =
      let rows = db.store.rows in
      elim (Option-cases (validate_delete h codec curve cfg entity_id author m.now none rows)) [
        | inl refused ↦ rw (refused, delete) (kept refl)
        | inr (v, e) ↦
            let valid =
              validate_delete-IsValid h codec curve cfg entity_id author m.now none rows e in
            rw (e, delete)
              (spec-Outcome true
                (revision h codec curve cfg v.0 entity_id Op.delete author delete_marker) d m db
                (λ seq. record {
                  from = inr (record {
                    head = v.0;
                    is_head = valid.is_head;
                    alive = inl valid.alive;
                    no_create = λ c. absurd (cc);
                    carried = inl refl;
                  });
                  deletes_no_ops = λ del. op_allowed-delete v.0.type valid.allowed;
                }))
      ]
