-- ===== src/Server/ChannelRemove.antt =====
-- handleChannelRemove of gumble/gumble/handlers.go.
use barnard_stormdragon_ai_f.Prelude.{ℕ, List, [], ◌∷◌, Option, none, some, false}
use barnard_stormdragon_ai_f.Prelude.Table.{lookup, delete, keys}
use barnard_stormdragon_ai_f.Server.{
  Server, HandlerError, incomplete_protobuf, invalid_protobuf, edit_channel, tell, channel_change,
}
use barnard_stormdragon_ai_f.Server.ChannelState.{channel_removed, leave_parent}

-- The loop over the links of a removed channel.
unfoldable pub forget_known : Server → ℕ → Option ℕ → Server
forget_known s id none = s
forget_known s id (some o) = edit_channel s o (λ c. record c { links = delete id c.links })

unfoldable pub forget_links : Server → ℕ → ℕ → List ℕ → Server
forget_links s id r [] = s
forget_links s id r (k ∷ ids) =
    forget_links (forget_known s id (lookup k (s.channel_at r).links)) id r ids

unfoldable pub remove_channel : Server → ℕ → ℕ → Server
remove_channel s id r =
    let channel = s.channel_at r in
    let gone : Server = record (edit_channel s r (λ c. record c { attached = false })) {
      channels = delete id s.channels;
      permissions = delete id s.permissions;
    } in
    let out =
      forget_links (leave_parent gone channel.id channel.parent) id r (keys channel.links) in
    tell out.phase (channel_change channel_removed r) out

unfoldable pub remove_found : Server → ℕ → Option ℕ → Server × Option HandlerError
remove_found s id none = (s, some invalid_protobuf)
remove_found s id (some r) = (remove_channel s id r, none)

unfoldable pub handle_channel_remove : Server → Option ℕ → Server × Option HandlerError
handle_channel_remove s none = (s, some incomplete_protobuf)
handle_channel_remove s (some id) = remove_found s id (lookup id s.channels)
