-- ===== src/Server/UserRemove.antt =====
-- handleUserRemove of gumble/gumble/handlers.go. The audio streams of a removed user are left out.
use barnard_stormdragon_ai_f.Prelude.{
  ℕ, List, [], Option, none, some, Bool, false, bit_or, if◌then◌else◌,
}
use barnard_stormdragon_ai_f.Prelude.Table.{lookup, delete}
use barnard_stormdragon_ai_f.Server.{
  Server, HandlerError, incomplete_protobuf, invalid_protobuf, kicked, banned, edit_user, tell,
  user_change,
}
use barnard_stormdragon_ai_f.Server.ChannelState.{same_pointer}
use barnard_stormdragon_ai_f.Server.UserState.{
  user_disconnected, user_kicked, user_banned, leave_channel,
}

pub record UserRemove : Type 0 where
  pub session : Option ℕ
  pub actor : Option ℕ
  pub reason : Option (List ℕ)
  pub ban : Option Bool

unfoldable pub is_ban : Option Bool → Bool
is_ban none = false
is_ban (some b) = b

unfoldable pub reason_text : Option (List ℕ) → List ℕ
reason_text none = []
reason_text (some text) = text

-- The user `u` goes; what is told to the client itself is kept in `disconnect`.
unfoldable pub remove_user : Server → UserRemove → (session u : ℕ) → Option ℕ → ℕ → Server
remove_user s p session u actor flags =
    let ban = is_ban p.ban in
    let text = reason_text p.reason in
    let bits = if ban then bit_or flags user_banned else flags in
    let gone = edit_user s u (λ x. record x { attached = false }) in
    let out : Server = record (leave_channel gone session (s.user_at u).channel) {
      users = delete session s.users;
      disconnect =
          if same_pointer (some u) s.self
          then if ban then banned text else kicked text
          else s.disconnect;
    } in
    tell out.phase (user_change bits u actor text) out

unfoldable pub remove_by :
    Server → UserRemove → (session u : ℕ) → Option ℕ → Server × Option HandlerError
remove_by s p session u none = (s, some invalid_protobuf)
remove_by s p session u (some a) =
    (remove_user s p session u (some a) (bit_or user_disconnected user_kicked), none)

unfoldable pub remove_known : Server → UserRemove → ℕ → Option ℕ → Server × Option HandlerError
remove_known s p session none = (s, some invalid_protobuf)
remove_known s p session (some u) = elim p.actor [
  | none ↦ (remove_user s p session u none user_disconnected, none)
  | some a ↦ remove_by s p session u (lookup a s.users)
]

unfoldable pub handle_user_remove : Server → UserRemove → Server × Option HandlerError
handle_user_remove s p = elim p.session [
  | none ↦ (s, some incomplete_protobuf)
  | some session ↦ remove_known s p session (lookup session s.users)
]
