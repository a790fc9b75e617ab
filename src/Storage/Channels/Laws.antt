-- ===== src/Storage/Channels/Laws.antt =====
-- The channel methods as changes of a map from ids to rows.
use agent_proxy_rust.Common.{
  String, Option, none, some, false, ◌≡◌, refl, List, [], ◌∷◌, ◌++◌, arith, if◌then◌else◌, str_eq,
  eq_iff, any, find, map_option, is_some,
}
use agent_proxy_rust.Storage.Types.{Channel}
use agent_proxy_rust.Storage.Sql.{update_where, delete_where}
use agent_proxy_rust.Storage.Channels.{has_id}

-- The rows by id, as a function.
abbrev pub Rows : Type 0
Rows = String → Option Channel

abbrev pub change : Rows → String → Option Channel → Rows
change rows id row asked = if str_eq id asked then row else rows asked

pub find-update_id :
    (asked id : String) (f : Channel → Channel) (xs : List Channel)
    → ((x : Channel) → (f x).id ≡ x.id)
    → find (has_id asked) (update_where (has_id id) f xs)
      ≡ (if str_eq id asked then map_option f (find (has_id id) xs) else find (has_id asked) xs)
find-update_id asked id f [] h = ground arith
find-update_id asked id f (x ∷ xs) h =
    ground (
      arith,
      find-update_id asked id f xs h,
      eq_iff x.id id,
      eq_iff x.id asked,
      eq_iff id asked,
      h x,
    )

pub find-delete_id :
    (asked id : String) (xs : List Channel)
    → find (has_id asked) (delete_where (has_id id) xs)
      ≡ (if str_eq id asked then none else find (has_id asked) xs)
find-delete_id asked id [] = ground arith
find-delete_id asked id (x ∷ xs) =
    ground (arith, find-delete_id asked id xs, eq_iff x.id id, eq_iff x.id asked, eq_iff id asked)

pub any-find :
    (id : String) (xs : List Channel) → any (has_id id) xs ≡ is_some (find (has_id id) xs)
any-find id [] = refl
any-find id (x ∷ xs) = ground (arith, any-find id xs)

pub find-append_id :
    (asked : String) (xs : List Channel) (y : Channel)
    → any (has_id y.id) xs ≡ false
    → find (has_id asked) (xs ++ (y ∷ []))
      ≡ (if str_eq y.id asked then some y else find (has_id asked) xs)
find-append_id asked [] y h = refl
find-append_id asked (x ∷ xs) y h =
    ground
      (arith, find-append_id asked xs y, eq_iff x.id y.id, eq_iff x.id asked, eq_iff y.id asked)
