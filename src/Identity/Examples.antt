-- ===== src/Identity/Examples.antt =====
-- Examples: a user who joins a thread from two devices.
use oursay.Base.{Bool, text_length, ◌==◌, ◌≡◌, refl, String, Option, none, some, []}
use oursay.Identity.Tables.{Keys}
use oursay.Identity.Persona.{Join, joined, first_join, ensure_thread_persona}
use oursay.Service.Jurisdiction.{
  resolve_thread_jurisdiction, resolve_thread_jurisdiction-ensure_thread_persona,
}
use oursay.Service.State.{get_entity_state, get_head_tx}
use oursay.Identity.Persona.Shared.{
  OneJurisdiction, ensure_thread_persona-OneJurisdiction, ensure_thread_persona_again,
}

abbrev no_keys : Keys
no_keys = record {
  thread_keys = [];
  thread_bindings = [];
  device_keys = [];
  thread_signers = [];
  credentials = [];
  nullifiers = [];
}

abbrev phone : Join
phone = record {
  user_id = "u1";
  thread_id = "6f1c2a30-1111-4222-8333-444455556666";
  jurisdiction = "ca.bc";
  proposed_pubkey = "p1";
  commitment = "c1";
  kyc_tier = none;
  persona_name = "quiet-otter-1";
}

abbrev sign : String → Option String
sign persona = some "sig"

first_join_example :
    ensure_thread_persona sign phone no_keys ≡ some (joined phone "sig" no_keys, "p1")
unfolding ensure_thread_persona first_join
first_join_example = refl

-- A thread has one jurisdiction: a join of another user under another one is refused.
other_jurisdiction :
    ensure_thread_persona sign
      (record phone {
        user_id = "u2";
        jurisdiction = "ca.ab";
        proposed_pubkey = "p2";
        persona_name = "n2";
      })
      (joined phone "sig" no_keys)
    ≡ none
unfolding ensure_thread_persona first_join
other_jurisdiction = refl

no_keys-OneJurisdiction : OneJurisdiction no_keys
unfolding OneJurisdiction
no_keys-OneJurisdiction thread = (thread, tt)

ensure_thread_persona-OneJurisdiction_example : OneJurisdiction (joined phone "sig" no_keys)
ensure_thread_persona-OneJurisdiction_example =
    ensure_thread_persona-OneJurisdiction sign phone no_keys (joined phone "sig" no_keys) "p1"
      first_join_example no_keys-OneJurisdiction

ensure_thread_persona_again_example :
    ensure_thread_persona sign
      (record phone { proposed_pubkey = "p2" })
      (joined phone "sig" no_keys)
    ≡ some (joined phone "sig" no_keys, "p1")
ensure_thread_persona_again_example =
    ensure_thread_persona_again sign sign phone "p2" no_keys (joined phone "sig" no_keys) "p1"
      first_join_example

-- Texts of 36 characters, for the examples.
abbrev is_uuid : String → Bool
is_uuid s = text_length s == 36

not_created : get_entity_state "6f1c2a30-1111-4222-8333-444455556666" [] ≡ none
unfolding get_entity_state get_head_tx
not_created = refl

resolve_thread_jurisdiction-ensure_thread_persona_example :
    resolve_thread_jurisdiction is_uuid "6f1c2a30-1111-4222-8333-444455556666" none []
      (joined phone "sig" no_keys)
    ≡ some (some "ca.bc")
resolve_thread_jurisdiction-ensure_thread_persona_example =
    resolve_thread_jurisdiction-ensure_thread_persona is_uuid sign phone no_keys
      (joined phone "sig" no_keys) "p1" [] refl first_join_example no_keys-OneJurisdiction
      not_created
