-- ===== src/Server/UserState/Fields.antt =====
-- The fields of a user in handleUserState of gumble/gumble/handlers.go leave it where it sits.
use barnard_stormdragon_ai_f.Prelude.{ℕ, ◌≡◌, refl, List, Option, none, some, Bool}
use mathlib.Core.Path.{fun_ext}
use barnard_stormdragon_ai_f.Prelude.Table.{lookup, change-field}
use barnard_stormdragon_ai_f.Server.{Server, User, edit_user}
use barnard_stormdragon_ai_f.Server.UserState.{
  UserState, Outcome, failed, going, edit_field, apply_text, apply_bool, apply_always, set_user_id,
  apply_user_id, apply_audio, apply_texts, apply_rest,
}
use barnard_stormdragon_ai_f.Server.UserState.Seats.{IsSeating}

abbrev pub sessions : Server → ℕ → ℕ
sessions s u = (s.user_at u).session

abbrev pub channel_of : Server → ℕ → Option ℕ
channel_of s u = (s.user_at u).channel

abbrev pub seats : Server → ℕ → ℕ → Option ℕ
seats s c k = lookup k (s.channel_at c).users

-- Every known user stands under its session and sits in the channel that it names.
pub record IsSeated (s : Server) : Type 0 where
  pub seating : IsSeating (sessions s) (channel_of s) (seats s) s.users s.next_user

-- Such a server, and its user `u` is known.
pub record IsGoing (s : Server) (u : ℕ) : Type 0 where
  pub k : ℕ
  pub seated : IsSeated s
  pub known : lookup k s.users ≡ some u

unfoldable pub IsGood : Outcome → Type 0
IsGood (failed s e) = Unit
IsGood (going s u flags actor) = IsGoing s u

edit_user-IsSeated :
    (s : Server) (u : ℕ) (f : User → User)
    → ((x : User) → (f x).session ≡ x.session)
    → ((x : User) → (f x).channel ≡ x.channel)
    → IsSeated s
    → IsSeated (edit_user s u f)
edit_user-IsSeated s u f hs hc h = record {
  seating =
      rw
        (
          fun_ext (λ v. change-field (λ (x : User). x.session) s.user_at u v f hs),
          fun_ext (λ v. change-field (λ (x : User). x.channel) s.user_at u v f hc),
        )
        h.seating;
}

edit_field-IsGood :
    (bits : ℕ) (f : User → User) (o : Outcome)
    → ((x : User) → (f x).session ≡ x.session)
    → ((x : User) → (f x).channel ≡ x.channel)
    → IsGood o
    → IsGood (edit_field bits f o)
unfolding edit_field IsGood
edit_field-IsGood bits f (failed s e) hs hc h = h
edit_field-IsGood bits f (going s u flags actor) hs hc h = record {
  k = h.k;
  seated = edit_user-IsSeated s u f hs hc h.seated;
  known = h.known;
}

pub apply_text-IsGood :
    (bits : ℕ) (get : User → List ℕ) (set : List ℕ → User → User) (t : Option (List ℕ))
    (o : Outcome)
    → ((v : List ℕ) (x : User) → (set v x).session ≡ x.session)
    → ((v : List ℕ) (x : User) → (set v x).channel ≡ x.channel)
    → IsGood o
    → IsGood (apply_text bits get set t o)
unfolding apply_text
apply_text-IsGood bits get set none o hs hc h = h
apply_text-IsGood bits get set (some v) o hs hc h = edit_field-IsGood _ (set v) o (hs v) (hc v) h

apply_bool-IsGood :
    (bits : ℕ) (get : User → Bool) (set : Bool → User → User) (t : Option Bool) (o : Outcome)
    → ((v : Bool) (x : User) → (set v x).session ≡ x.session)
    → ((v : Bool) (x : User) → (set v x).channel ≡ x.channel)
    → IsGood o
    → IsGood (apply_bool bits get set t o)
unfolding apply_bool
apply_bool-IsGood bits get set none o hs hc h = h
apply_bool-IsGood bits get set (some v) o hs hc h = edit_field-IsGood _ (set v) o (hs v) (hc v) h

apply_always-IsGood :
    (bits : ℕ) (set : List ℕ → User → User) (t : Option (List ℕ)) (o : Outcome)
    → ((v : List ℕ) (x : User) → (set v x).session ≡ x.session)
    → ((v : List ℕ) (x : User) → (set v x).channel ≡ x.channel)
    → IsGood o
    → IsGood (apply_always bits set t o)
unfolding apply_always
apply_always-IsGood bits set none o hs hc h = h
apply_always-IsGood bits set (some v) o hs hc h = edit_field-IsGood bits (set v) o (hs v) (hc v) h

apply_audio-IsGood : (p : UserState) (o : Outcome) → IsGood o → IsGood (apply_audio p o)
unfolding apply_audio
apply_audio-IsGood p o h =
    apply_bool-IsGood _ _ _ p.self_deaf _ (λ v x. refl) (λ v x. refl)
      (apply_bool-IsGood _ _ _ p.self_mute _ (λ v x. refl) (λ v x. refl)
        (apply_bool-IsGood _ _ _ p.suppress _ (λ v x. refl) (λ v x. refl)
          (apply_bool-IsGood _ _ _ p.deaf _ (λ v x. refl) (λ v x. refl)
            (apply_bool-IsGood _ _ _ p.mute o (λ v x. refl) (λ v x. refl) h))))

apply_texts-IsGood : (p : UserState) (o : Outcome) → IsGood o → IsGood (apply_texts p o)
unfolding apply_texts
apply_texts-IsGood p o h =
    apply_always-IsGood _ _ p.texture_hash _ (λ v x. refl) (λ v x. refl)
      (apply_always-IsGood _ _ p.comment_hash _ (λ v x. refl) (λ v x. refl)
        (apply_always-IsGood _ _ p.hash _ (λ v x. refl) (λ v x. refl)
          (apply_text-IsGood _ _ _ p.comment _ (λ v x. refl) (λ v x. refl)
            (apply_always-IsGood _ _ p.texture o (λ v x. refl) (λ v x. refl) h))))

pub apply_rest-IsGood : (p : UserState) (o : Outcome) → IsGood o → IsGood (apply_rest p o)
unfolding apply_rest
apply_rest-IsGood p o h =
    apply_bool-IsGood _ _ _ p.recording _ (λ v x. refl) (λ v x. refl)
      (apply_bool-IsGood _ _ _ p.priority_speaker _ (λ v x. refl) (λ v x. refl)
        (apply_texts-IsGood p _ (apply_audio-IsGood p o h)))

pub apply_user_id-IsGood : (id : Option ℕ) (o : Outcome) → IsGood o → IsGood (apply_user_id id o)
unfolding apply_user_id set_user_id IsGood
apply_user_id-IsGood none o h = h
apply_user_id-IsGood (some id) (failed s e) h = h
apply_user_id-IsGood (some id) (going s u flags actor) h = record {
  k = h.k;
  seated = edit_user-IsSeated s u _ (λ x. refl) (λ x. refl) h.seated;
  known = h.known;
}
