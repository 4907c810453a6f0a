-- ===== src/Examples/RegistryRuns.antt =====
-- The registry and the sponsorship contract on concrete inputs.
use open_social_protocol.Prelude.{◌≡◌, ◌≤◌, ◌<◌, refl, some, none, true, [], ◌∷◌, Bool, ◌+◌, ℕ}
use open_social_protocol.Chain.{Bytes, Text, Env, ok}
use open_social_protocol.Registry.State
use open_social_protocol.Registry.Checks.{
  optional_notes, optional_abi_hash, name_char, require_name_chars, load_config, require_admin,
  init, require_name, name_key,
}
use open_social_protocol.Registry.Contracts.{enter, propose_contract, apply_contract}
use open_social_protocol.Registry.Entries
use open_social_protocol.Registry.Versions
use open_social_protocol.Registry.Versions.{
  version_of, Reach-version_grows, apply_contract_upgrades,
}
use open_social_protocol.Registry.Listing.{Rows, insert_all}
use open_social_protocol.Registry.Sorting.{IsDescending, occurrences, insert_all-IsDescending}
use open_social_protocol.Sponsorship.State as Sponsoring
use open_social_protocol.Sponsorship.Sponsors.{
  validate_calls, validate_allowed, validate_endpoint, SetSponsor, set_sponsor,
}
use open_social_protocol.Sponsorship.Authority
use open_social_protocol.Sponsorship.Authority.{Untouched, Step-authority}
use open_social_protocol.Chain.Util.{require_string, require_address}
use open_social_protocol.Examples.Mock.{mock, address, chain_at, after}

abbrev token : Text
token = b't' ∷ b'o' ∷ b'k' ∷ b'e' ∷ b'n' ∷ []

abbrev configured : State.State
configured = after State.fresh (init (chain_at 1) (some (address 1)) 86400000 1 State.fresh)

configured-ok : init (chain_at 1) (some (address 1)) 86400000 1 State.fresh ≡ ok configured
unfolding init require_address
configured-ok = refl

abbrev first : State.State
first =
    after configured
      (propose_contract (chain_at 2) (some token) (some (address 2)) 1 none none configured)

first-ok :
    propose_contract (chain_at 2) (some token) (some (address 2)) 1 none none configured ≡ ok first
unfolding init propose_contract require_admin load_config require_address require_name
    require_name_chars name_char optional_abi_hash optional_notes require_string enter
first-ok = refl

abbrev second : State.State
second =
    after first (propose_contract (chain_at 3) (some token) (some (address 3)) 2 none none first)

second-ok :
    propose_contract (chain_at 3) (some token) (some (address 3)) 2 none none first ≡ ok second
unfolding init propose_contract require_admin load_config require_address require_name
    require_name_chars name_char optional_abi_hash optional_notes require_string enter
second-ok = refl

abbrev upgraded : State.State
upgraded = after second (apply_contract (chain_at 86400003) (some token) second)

upgraded-ok : apply_contract (chain_at 86400003) (some token) second ≡ ok upgraded
unfolding init propose_contract apply_contract load_config require_admin require_address
    require_name require_name_chars name_char optional_abi_hash optional_notes require_string enter
upgraded-ok = refl

history : Versions.Reach State.fresh second
history =
    Versions.next (chain_at 3)
      (Versions.next (chain_at 2)
        (Versions.next (chain_at 1) Versions.here
          (Entries.Step.inits (some (address 1)) 86400000 1 configured-ok))
        (Entries.Step.proposes (some token) (some (address 2)) 1 none none first-ok))
      (Entries.Step.proposes (some token) (some (address 3)) 2 none none second-ok)

Reach-version_grows_example :
    version_of (mock.get second.active_entries token)
    ≤ version_of (mock.get upgraded.active_entries token)
Reach-version_grows_example = Reach-version_grows token history (
    Versions.next (chain_at 86400003) Versions.here (Entries.Step.applies (some token) upgraded-ok))

apply_contract_upgrades_example :
    (n : Text) × (p : State.ContractEntry) × (require_name (some token) ≡ ok n)
    × (mock.get second.proposed_entries (name_key n) ≡ some p)
    × (p.effective_at ≤ 86400003)
    × (version_of (mock.get second.active_entries (name_key n)) < p.version)
    × (version_of (mock.get upgraded.active_entries (name_key n)) ≡ p.version)
    × (mock.get upgraded.proposed_entries (name_key n) ≡ none)
apply_contract_upgrades_example =
    apply_contract_upgrades (chain_at 86400003) (some token) second upgraded history upgraded-ok

abbrev entry : ℕ → State.ContractEntry
entry n = record {
  name = token;
  address = address n;
  version = n;
  abi_hash = none;
  status = State.active;
  effective_at = 0;
  notes = none;
  updated_at = 0;
}

abbrev rows : Rows
rows = (2 ∷ [], entry 2) ∷ (1 ∷ [], entry 1) ∷ (3 ∷ [], entry 3) ∷ []

insert_all-IsDescending_example :
    IsDescending (insert_all [] rows)
    × ((test : Bytes × State.ContractEntry → Bool)
        → occurrences test (insert_all [] rows) ≡ occurrences test [] + occurrences test rows)
insert_all-IsDescending_example = insert_all-IsDescending [] rows tt

abbrev offer : SetSponsor
offer = record {
  sponsor = some (address 1);
  endpoint = none;
  policy_uri = none;
  policy_version = 1;
  allowed = [];
  max_rc_per_op = 1000;
  max_ops_per_user_per_day = 10;
  bytes_per_op = 1024;
  active = true;
}

-- Only account 1 has signed.
abbrev signed_by_1 : Env
signed_by_1 = record (chain_at 5) { authorized = λ a. mock.equal a (address 1) }

abbrev sponsored : Sponsoring.State
sponsored = after Sponsoring.fresh (set_sponsor signed_by_1 offer Sponsoring.fresh)

sponsored-ok : set_sponsor signed_by_1 offer Sponsoring.fresh ≡ ok sponsored
unfolding set_sponsor require_address validate_endpoint require_string validate_allowed
    validate_calls
sponsored-ok = refl

Step-authority_example : Untouched (address 2) Sponsoring.fresh sponsored
Step-authority_example =
    Step-authority signed_by_1 (address 2) Sponsoring.fresh sponsored refl refl
      (Authority.Step.sets offer sponsored-ok)
