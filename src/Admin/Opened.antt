-- ===== src/Admin/Opened.antt =====
-- What the server hears when the menu of admin.go opens.
use barnard_stormdragon_ai_f.Prelude.{
  ℕ, ◌≡◌, ◌≤◌, refl, List, [], ◌∷◌, ◌++◌, Option, none, some, true, if_ind, length, length-append,
  arith,
}
use barnard_stormdragon_ai_f.Prelude.Table.{lookup}
use barnard_stormdragon_ai_f.Server.{Server}
use barnard_stormdragon_ai_f.Admin.{Desk, Request, is_id}
use barnard_stormdragon_ai_f.Admin.Menu.{
  menu_channel, permission_query, root_query, open_admin_menu,
}
use barnard_stormdragon_ai_f.Admin.Reaction.{Reaction, opened, turned_down, is_query, all_queries}

permission_query_few :
    (s : Server) (o : Option ℕ)
    → (all_queries (permission_query s o) ≡ true) × (length (permission_query s o) ≤ 1)
unfolding permission_query all_queries is_query
permission_query_few s none = (refl, omega arith)
permission_query_few s (some c) = (refl, omega arith)

root_query_few :
    (s : Server) (t o : Option ℕ)
    → (all_queries (root_query s t o) ≡ true) × (length (root_query s t o) ≤ 1)
unfolding root_query all_queries
root_query_few s t none = (refl, omega arith)
root_query_few s t (some r) =
    if_ind (λ rs. (all_queries rs ≡ true) × (length rs ≤ 1)) (is_id t r) (λ e. (refl, omega arith))
      (λ e. permission_query_few s (some r))

all_queries-append :
    (xs ys : List Request)
    → all_queries xs ≡ true
    → all_queries ys ≡ true
    → all_queries (xs ++ ys) ≡ true
unfolding all_queries
all_queries-append [] ys h k = k
all_queries-append (x ∷ xs) ys h k = grind (arith, h, k, all_queries-append xs ys)

pub open_admin_menu-Once : (self : Option ℕ) (d : Desk) → Reaction d (open_admin_menu self d)
unfolding open_admin_menu
open_admin_menu-Once none d = turned_down refl
open_admin_menu-Once (some self) d =
    let target = menu_channel d.server self d.item_user d.item_channel in
    let root = lookup 0 d.server.channels in
    let (a, m) = permission_query_few d.server target in
    let (b, n) = root_query_few d.server target root in
    opened (permission_query d.server target ++ root_query d.server target root)
      (all_queries-append (permission_query d.server target) (root_query d.server target root) a b)
      (omega (
        arith,
        m,
        n,
        length-append (permission_query d.server target) (root_query d.server target root),
      ))
      refl refl refl
