-- ===== src/Hydration/Privacy.antt =====
-- packages/client/src/sync/pending-hydration.ts, its second half: what a freshly replaced snapshot
-- withholds of the pending transactions, and the comparison of group lists.
use stratasync.Prelude.{
  String, ◌≡◌, refl, ap, ap₂, map, inl, inr, Bool, true, false, not, ◌||◌, ◌&&◌, List, [], ◌∷◌,
  Option, none, some, arith, Bool-cases, Option-cases, sym, ◌∙◌, ◌==◌, length, if◌then◌else◌,
}
use stratasync.Prelude.Dict.{is_some}
use stratasync.Prelude.TextSet.{TextSet, contains, add}
use stratasync.Value.{Row}
use stratasync.Transaction.{Action, Transaction, insert}
use stratasync.IdentityMap.Registry.{Registry}
use stratasync.Hydration.{has_target}

pub record PrivacySplit : Type 0 where
  pub changed : List Transaction
  pub replayable : List Transaction
  pub withheld : List Transaction

abbrev pub is_insert : Action → Bool
is_insert insert = true
is_insert _ = false

-- `tx.action !== "I" && tx.original !== undefined`
abbrev pub has_rollback : Transaction → Bool
has_rollback tx = not (is_insert tx.action) && is_some tx.original

-- `tx.original = undefined` is seen wherever the transaction is, so in both lists.
abbrev pub stripped : Transaction → Transaction
stripped tx = if has_rollback tx then record tx { original = none } else tx

abbrev pub add_withheld : Transaction → PrivacySplit → PrivacySplit
add_withheld tx rest = record {
  changed = if has_rollback tx then stripped tx ∷ rest.changed else rest.changed;
  replayable = rest.replayable;
  withheld = stripped tx ∷ rest.withheld;
}

abbrev pub add_replayable : Transaction → PrivacySplit → PrivacySplit
add_replayable tx rest = record rest { replayable = tx ∷ rest.replayable }

-- A transaction without its rollback value, which an insert keeps.
abbrev pub forget : Transaction → Transaction
forget tx = elim tx.action [ insert ↦ tx | _ ↦ record tx { original = none } ]

-- Those that are no insert and have a rollback value.
abbrev pub loses : Action → Option Row → Bool
loses insert o = false
loses _ none = false
loses _ (some original) = true

unfoldable pub with_rollback : List Transaction → List Transaction
with_rollback [] = []
with_rollback (tx ∷ txs) =
    let rest = with_rollback txs in if loses tx.action tx.original then tx ∷ rest else rest

has_rollback-loses : (tx : Transaction) → has_rollback tx ≡ loses tx.action tx.original
has_rollback-loses tx = ground arith

stripped-forget : (tx : Transaction) → stripped tx ≡ forget tx
stripped-forget tx = elim (Option-cases tx.original) [
  | inl e ↦
      let same : tx ≡ record tx { original = none } = ap (λ o. record tx { original = o }) e in
      ground (arith, same)
  | inr (original, e) ↦ ground arith
]

stripped-has_rollback : (tx : Transaction) → has_rollback (stripped tx) ≡ false
stripped-has_rollback tx = elim (Bool-cases (has_rollback tx)) [
  | inl e ↦ rw e (ground arith)
  | inr e ↦ rw e e
]

module _ {T : Type 0} (g : Registry T) where
  stripped_missing :
      (tx : Transaction) → has_target g tx ≡ false → has_target g (stripped tx) ≡ false
  unfolding has_target
  stripped_missing tx e = elim (Bool-cases (has_rollback tx)) [ inl h ↦ rw h e | inr h ↦ rw h e ]

  -- `preparePendingTransactionsForPrivacySnapshot`
  unfoldable pub prepare_pending : List Transaction → PrivacySplit
  prepare_pending [] = record { changed = []; replayable = []; withheld = [] }
  prepare_pending (tx ∷ pending) =
      let rest = prepare_pending pending in
      if has_target g tx then add_replayable tx rest else add_withheld tx rest

  filter_withheld : List String → List Transaction → List Transaction
  filter_withheld ids [] = []
  filter_withheld ids (tx ∷ pending) =
      let rest = filter_withheld ids pending in
      if not (contains tx.client_tx_id ids) || has_target g tx then tx ∷ rest else rest

  -- `excludePrivacyWithheldTransactions`, with identity maps
  unfoldable pub exclude_withheld : List Transaction → Option (List String) → List Transaction
  unfolding filter_withheld
  exclude_withheld pending none = pending
  exclude_withheld pending (some []) = pending
  exclude_withheld pending (some (id ∷ ids)) = filter_withheld (id ∷ ids) pending

-- `new Set(a)`
unfoldable pub set_of : TextSet → List String → TextSet
set_of s [] = s
set_of s (a ∷ names) = set_of (add a s) names

unfoldable pub includes_all : TextSet → TextSet → Bool
includes_all s [] = true
includes_all s (a ∷ names) = contains a s && includes_all s names

-- `areGroupsEqual`
unfoldable pub are_groups_equal : List String → List String → Bool
are_groups_equal a b =
    if length (set_of [] a) == length (set_of [] b)
    then includes_all (set_of [] a) (set_of [] b)
    else false

same_changed_next :
    (tx : Transaction) (changed txs : List Transaction)
    → changed ≡ map forget (with_rollback txs)
    → (if has_rollback tx then stripped tx ∷ changed else changed)
      ≡ map forget (with_rollback (tx ∷ txs))
unfolding with_rollback
same_changed_next tx changed txs h = elim (Bool-cases (has_rollback tx)) [
  | inl e ↦
      rw (e, sym (has_rollback-loses tx) ∙ e) (ap₂ (λ t l. t ∷ l) (rw e at (stripped-forget tx)) h)
  | inr e ↦ rw (e, sym (has_rollback-loses tx) ∙ e) h
]

module _ {T : Type 0} (g : Registry T) where
  abbrev pub AreWithheld : List Transaction → Type 0
  AreWithheld [] = Unit
  AreWithheld (tx ∷ txs) = (has_target g tx ≡ false) × (has_rollback tx ≡ false) × AreWithheld txs

  abbrev pub ArePresent : List Transaction → Type 0
  ArePresent [] = Unit
  ArePresent (tx ∷ txs) = (has_target g tx ≡ true) × ArePresent txs

  -- The transactions that have a row in the snapshot, and the others.
  unfoldable pub with_row : List Transaction → List Transaction
  with_row [] = []
  with_row (tx ∷ txs) = let rest = with_row txs in if has_target g tx then tx ∷ rest else rest

  unfoldable pub without_row : List Transaction → List Transaction
  without_row [] = []
  without_row (tx ∷ txs) = let rest = without_row txs in if has_target g tx then rest else tx ∷ rest

  -- What is replayed are the pending transactions that have their row in the snapshot, unchanged and
  -- in order. What is withheld are the others, in order, without the rollback value of any that is
  -- no insert and else unchanged; those that had one are the changed ones.
  pub prepare_pending-splits :
      (pending : List Transaction)
      → ArePresent (prepare_pending g pending).replayable
        × AreWithheld (prepare_pending g pending).withheld
        × ((prepare_pending g pending).replayable ≡ with_row pending)
        × ((prepare_pending g pending).withheld ≡ map forget (without_row pending))
        × ((prepare_pending g pending).changed ≡ map forget (with_rollback (without_row pending)))
  unfolding prepare_pending with_row without_row with_rollback
  prepare_pending-splits [] = (tt, tt, refl, refl, refl)
  prepare_pending-splits (tx ∷ pending) =
      let (present, withheld, same_row, same_other, same_changed) =
        prepare_pending-splits pending in
      elim (Bool-cases (has_target g tx)) [
        | inl e ↦
            rw (e, prepare_pending, with_row, without_row)
              ((e, present), withheld, ap (λ l. tx ∷ l) same_row, same_other, same_changed)
        | inr e ↦
            rw (e, prepare_pending, with_row, without_row)
              (
                present,
                (stripped_missing g tx e, stripped-has_rollback tx, withheld),
                same_row,
                ap₂ (λ t l. t ∷ l) (stripped-forget tx) same_other,
                same_changed_next tx _ (without_row pending) same_changed,
              )
      ]
