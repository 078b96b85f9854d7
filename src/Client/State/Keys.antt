-- ===== src/Client/State/Keys.antt =====
-- The keys of the state agent's maps: pages and changes (client/src/state/agent.rs).
use shamichan.Prelude.{
  ◌≡◌, ◌↔◌, refl, ap, sym, ◌∙◌, Bool, true, false, ◌==◌, eqb→eq, eqb_refl, arith,
}
use shamichan.Prelude.Eq.{Eq}
use shamichan.PostBody.Node.{ℤ, pos, negsuc}
use shamichan.Client.State.Requests.{Change}

abbrev pub int_eq : ℤ → ℤ → Bool
int_eq (pos a) (pos b) = a == b
int_eq (negsuc a) (negsuc b) = a == b
int_eq a b = false

int_eq→eq : (a b : ℤ) → int_eq a b ≡ true → a ≡ b
int_eq→eq (pos a) (pos b) h = ap pos (eqb→eq a b h)
int_eq→eq (negsuc a) (negsuc b) h = ap negsuc (eqb→eq a b h)
int_eq→eq a b h = absurd (ground arith)

int_eq_refl : (a : ℤ) → int_eq a a ≡ true
int_eq_refl (pos a) = eqb_refl a
int_eq_refl (negsuc a) = eqb_refl a

pub int_eq_iff : (a b : ℤ) → (int_eq a b ≡ true) ↔ (a ≡ b)
int_eq_iff a b = (int_eq→eq a b, λ e. ap (λ c. int_eq a c) (sym e) ∙ int_eq_refl a)

instance abbrev pub int_Eq : Eq ℤ
int_Eq = record { eq = int_eq; eq_iff = int_eq_iff }

abbrev pub change_eq : Change → Change → Bool
change_eq Change.location Change.location = true
change_eq Change.key_pair Change.key_pair = true
change_eq Change.options Change.options = true
change_eq Change.configs Change.configs = true
change_eq Change.used_tags Change.used_tags = true
change_eq Change.thread_list Change.thread_list = true
change_eq (Change.thread a) (Change.thread b) = a == b
change_eq (Change.post a) (Change.post b) = a == b
change_eq Change.time_correction Change.time_correction = true
change_eq Change.open_post_id Change.open_post_id = true
change_eq a b = false

change_eq→eq : (a b : Change) → change_eq a b ≡ true → a ≡ b
change_eq→eq Change.location Change.location h = refl
change_eq→eq Change.key_pair Change.key_pair h = refl
change_eq→eq Change.options Change.options h = refl
change_eq→eq Change.configs Change.configs h = refl
change_eq→eq Change.used_tags Change.used_tags h = refl
change_eq→eq Change.thread_list Change.thread_list h = refl
change_eq→eq (Change.thread a) (Change.thread b) h = ap Change.thread (eqb→eq a b h)
change_eq→eq (Change.post a) (Change.post b) h = ap Change.post (eqb→eq a b h)
change_eq→eq Change.time_correction Change.time_correction h = refl
change_eq→eq Change.open_post_id Change.open_post_id h = refl
change_eq→eq a b h = absurd (ground arith)

change_eq_refl : (a : Change) → change_eq a a ≡ true
change_eq_refl (Change.thread a) = eqb_refl a
change_eq_refl (Change.post a) = eqb_refl a
change_eq_refl a = refl

pub change_eq_iff : (a b : Change) → (change_eq a b ≡ true) ↔ (a ≡ b)
change_eq_iff a b = (change_eq→eq a b, λ e. ap (λ c. change_eq a c) (sym e) ∙ change_eq_refl a)

instance abbrev pub change_Eq : Eq Change
change_Eq = record { eq = change_eq; eq_iff = change_eq_iff }
