-- ===== src/Admin/Once.antt =====
-- A command of admin.go is refused as a whole, or sends one message.
use barnard_stormdragon_ai_f.Admin.Reaction.{Reaction}
