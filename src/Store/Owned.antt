-- ===== src/Store/Owned.antt =====
-- What the tables of owned items in tripmate/database/store.py share: the ownership test of their
-- reads, the filter of their lists, and the checked deletion.
use multi_ai_agent.Common.{
  String, Bool, true, false, Option, none, some, List, ◌≡◌, refl, ◌≢◌, arith, str_eq, eq_iff,
  truthy, keep, All, All-kept, All-imp, if◌then◌else◌, is_some,
}
use multi_ai_agent.Common.Dict.{Dict, lookup, erase, lookup-erase}
use multi_ai_agent.Store.{or_empty, is_foreign}

module _ {V : Type 0} (owner : V → String) where
  -- An item that was looked up, unless the caller names another user.
  unfoldable pub visible : Option String → Option V → Option V
  visible user none = none
  visible user (some item) = if is_foreign user (owner item) then none else some item

  -- `if not user_id: all, else [x for x in items if x["user_id"] == user_id]`
  unfoldable pub owned_by : Option String → List V → List V
  owned_by user items =
      if truthy (or_empty user) then keep (λ x. str_eq (owner x) (or_empty user)) items else items

  pub visible_own :
      (user : String) (item : V) → owner item ≡ user → visible (some user) (some item) ≡ some item
  unfolding visible
  visible_own user item e = ground (arith, eq_iff (owner item) user)

  pub visible_foreign :
      (user : String) (item : V)
      → truthy user ≡ true
      → user ≢ owner item
      → visible (some user) (some item) ≡ none
  unfolding visible
  visible_foreign user item t ne = ground (arith, eq_iff (owner item) user)

  pub owned_by-All :
      (user : String) (items : List V)
      → truthy user ≡ true
      → All (λ x. owner x ≡ user) (owned_by (some user) items)
  unfolding owned_by
  owned_by-All user items t = rw t (
      All-imp (keep (λ x. str_eq (owner x) user) items) (λ x e. (eq_iff (owner x) user).0 e)
        (All-kept (λ x. str_eq (owner x) user) items))

  -- A table without an item, where the caller may see it; and whether there was one.
  unfoldable pub delete_visible : String → Option V → Dict V → Dict V × Bool
  delete_visible item_id none d = (d, false)
  delete_visible item_id (some item) d = (erase item_id d, true)

  -- A deletion answers whether the item was there for the caller; afterwards it is gone where the
  -- answer is yes, and everything else is as it was.
  pub delete_visible_lem :
      (item_id : String) (user : Option String) (d : Dict V)
      → let (d', answer) = delete_visible item_id (visible user (lookup item_id d)) d in
        (answer ≡ is_some (visible user (lookup item_id d)))
        × ((k : String)
            → lookup k d' ≡ (
                if str_eq item_id k
                then (if is_some (visible user (lookup item_id d)) then none else lookup k d)
                else lookup k d))
  delete_visible_lem item_id user d = by_visible (visible user (lookup item_id d))
    where
      by_visible :
          (o : Option V)
          → let (d', answer) = delete_visible item_id o d in
            (answer ≡ is_some o)
            × ((k : String)
                → lookup k d' ≡ (
                    if str_eq item_id k
                    then (if is_some o then none else lookup k d)
                    else lookup k d))
      by_visible none = unfold delete_visible in (refl, λ k. ground (arith, eq_iff item_id k))
      by_visible (some w) = unfold delete_visible in (refl, λ k. lookup-erase item_id k d)
