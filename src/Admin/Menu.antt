-- ===== src/Admin/Menu.antt =====
-- OpenAdminMenu of admin.go: the targets that it picks and what it asks of the server. The view that it
-- opens is not modelled.
use barnard_stormdragon_ai_f.Prelude.{ℕ, List, [], ◌∷◌, ◌++◌, Option, none, some, if◌then◌else◌}
use barnard_stormdragon_ai_f.Prelude.Table.{lookup}
use barnard_stormdragon_ai_f.Server.{Server}
use barnard_stormdragon_ai_f.Admin.{Desk, Request, refuse, is_id, confirmed, request_permission}

-- The targets of the menu: what the active item of the tree names, else the selected user and the own
-- channel.
unfoldable pub menu_user : (selected user channel : Option ℕ) → Option ℕ
menu_user selected user (some c) = none
menu_user selected (some u) none = some u
menu_user selected none none = selected

unfoldable pub menu_channel : Server → (self : ℕ) → (user channel : Option ℕ) → Option ℕ
menu_channel s self user (some c) = some c
menu_channel s self (some u) none = (s.user_at u).channel
menu_channel s self none none = (s.user_at self).channel

unfoldable pub permission_query : Server → Option ℕ → List Request
permission_query s none = []
permission_query s (some c) = request_permission (s.channel_at c).id ∷ []

-- The root channel, where it is known and not the target.
unfoldable pub root_query : Server → (target root : Option ℕ) → List Request
root_query s target none = []
root_query s target (some r) = if is_id target r then [] else permission_query s (some r)

-- `OpenAdminMenu`, but for the views.
unfoldable pub open_admin_menu : Option ℕ → Desk → Desk
open_admin_menu none d = refuse d
open_admin_menu (some self) d =
    let target = menu_channel d.server self d.item_user d.item_channel in
    record d {
      target_user = menu_user d.selected_user d.item_user d.item_channel;
      target_channel = target;
      outbox =
          d.outbox
          ++ (permission_query d.server target
              ++ root_query d.server target (lookup 0 d.server.channels));
      lines = d.lines ++ (confirmed ∷ []);
    }
