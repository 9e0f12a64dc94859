-- ===== src/Guest/Delegation/Find.antt =====
-- Which entry of the registry `find` of split_delegation.rs takes.
use aragon_zk_governance.Common.{
  ◌≡◌, ◌≢◌, ◌↔◌, ap, ◌∙◌, some, false, List, [], ◌∷◌, ◌++◌, All, drop, bytes_eq, bytes_eq_iff,
  Bool-cases, inl, inr,
}
use aragon_zk_governance.Config.{Address}
use aragon_zk_governance.Steel.{RegistryDelegation}
use aragon_zk_governance.Guest.Delegation.{find_delegation, compare_bytes32_to_address}

-- The account that an entry names: the last 20 of its 32 bytes.
abbrev pub account_of : RegistryDelegation → Address
account_of d = drop 12 d.delegate

-- The list has the entry, which names the account, and no entry before it does.
pub record IsFirst (account : Address) (ds : List RegistryDelegation) (found : RegistryDelegation)
    : Type 0 where
  pub before : List RegistryDelegation
  pub after : List RegistryDelegation
  pub splits : ds ≡ before ++ found ∷ after
  pub names : account_of found ≡ account
  pub others : All (λ d. account_of d ≢ account) before

not_named :
    (d : RegistryDelegation) (account : Address)
    → bytes_eq (account_of d) account ≡ false
    → account_of d ≢ account
not_named d account h e = cc ((bytes_eq_iff (account_of d) account).1 e)

find_delegation-IsFirst :
    (account : Address) (ds : List RegistryDelegation) (found : RegistryDelegation)
    → find_delegation account ds ≡ some found
    → IsFirst account ds found
unfolding find_delegation compare_bytes32_to_address
find_delegation-IsFirst account [] found h = cc
find_delegation-IsFirst account (d ∷ ds) found h =
    elim (Bool-cases (bytes_eq (account_of d) account)) [
      | inl here ↦
          let same : some d ≡ some found = rw here at h in
          record {
            before = [];
            after = ds;
            splits = cc same;
            names = cc (same, (bytes_eq_iff (account_of d) account).0 here);
            others = tt;
          }
      | inr there ↦
          let first = find_delegation-IsFirst account ds found (rw there at h) in
          record {
            before = d ∷ first.before;
            after = first.after;
            splits = ap (λ (r : List RegistryDelegation). d ∷ r) first.splits;
            names = first.names;
            others = (not_named d account there, first.others);
          }
    ]

find_delegation-append :
    (account : Address) (before after : List RegistryDelegation) (found : RegistryDelegation)
    → account_of found ≡ account
    → All (λ d. account_of d ≢ account) before
    → find_delegation account (before ++ found ∷ after) ≡ some found
unfolding find_delegation compare_bytes32_to_address
find_delegation-append account [] after found e h =
    rw ((bytes_eq_iff (account_of found) account).1 e)
find_delegation-append account (d ∷ before) after found e (other, others) =
    elim (Bool-cases (bytes_eq (account_of d) account)) [
      | inl here ↦ absurd (other ((bytes_eq_iff (account_of d) account).0 here))
      | inr there ↦ rw there (find_delegation-append account before after found e others)
    ]

-- The entry that is found for an account is the first one whose last 20 bytes are the account, and
-- one is found wherever there is such an entry.
pub find_delegation_iff :
    (account : Address) (ds : List RegistryDelegation) (found : RegistryDelegation)
    → (find_delegation account ds ≡ some found) ↔ IsFirst account ds found
find_delegation_iff account ds found = (
  find_delegation-IsFirst account ds found,
  λ first.
      ap (find_delegation account) first.splits
      ∙ find_delegation-append account first.before first.after found first.names first.others,
)
