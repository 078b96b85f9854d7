-- ===== src/Client/State.antt =====
-- The state of the app (client/src/state/state.rs and the key pair of client/src/state/key_pair.rs).
-- `configs` and `options` are opaque values.
pub mod Requests
pub mod Keys
pub mod Agent
use shamichan.Prelude.{
  ℕ, List, Option, none, some, Bool, ◌==◌, ◌&&◌, arith, ◌≡◌, true, refl, ap, ap₂, ◌↔◌,
}
use shamichan.Prelude.Eq.{Eq, ℕ_eq}
use shamichan.PostBody.Node.{ℤ}
use shamichan.Payloads.{Post, Thread}
use shamichan.Collections.HashMap
use shamichan.Collections.HashMap.{HashMap}
use shamichan.Collections.HashSet.{HashSet}
use shamichan.Collections.DoubleSetMap
use shamichan.Collections.DoubleSetMap.{DoubleSetMap}
use shamichan.Client.Location.{Location}

pub record KeyPair : Type 0 where
  pub private_key : List ℕ
  pub public_key : List ℕ
  pub id : Option ℕ

pub record NewPostOpts : Type 0 where
  pub sage : Bool
  pub name : List ℕ

pub record State : Type 0 where
  pub location : Location
  pub configs : ℕ
  pub threads : HashMap ℕ Thread
  pub posts : HashMap ℕ Post
  pub posts_by_thread_page : DoubleSetMap (ℕ × ℕ) ℕ
  pub loaded_pages : HashSet ℕ
  pub key_pair : KeyPair
  pub key_id : Option ℕ
  pub options : ℕ
  pub open_post_id : Option ℕ
  pub mine : HashSet ℕ
  pub new_post_opts : NewPostOpts
  pub used_tags : List (List ℕ)
  pub time_correction : ℤ

-- The key of `posts_by_thread_page`: a thread and a page
abbrev pub pair_eq : ℕ × ℕ → ℕ × ℕ → Bool
pair_eq (a, b) (c, d) = a == c && b == d

pub pair_eq_iff : (p q : ℕ × ℕ) → (pair_eq p q ≡ true) ↔ (p ≡ q)
pair_eq_iff (a, b) (c, d) =
    let to : pair_eq (a, b) (c, d) ≡ true → ◌≡◌ {A = ℕ × ℕ} (a, b) (c, d) =
      λ h. ap₂ {C = ℕ × ℕ} (λ x y. (x, y)) (ground arith) (ground arith) in
    let back : ◌≡◌ {A = ℕ × ℕ} (a, b) (c, d) → pair_eq (a, b) (c, d) ≡ true =
      λ e. let l : a ≡ c = ap (λ p. p.0) e in let r : b ≡ d = ap (λ p. p.1) e in ground arith in
    (to, back)

instance abbrev pub pair_Eq : Eq (ℕ × ℕ)
pair_Eq = record { eq = pair_eq; eq_iff = pair_eq_iff }

-- `State::register_post`
unfoldable pub register_post : State → Post → State
register_post s p = record s {
  posts_by_thread_page = DoubleSetMap.insert s.posts_by_thread_page (p.thread, p.page) p.id;
  posts = HashMap.insert s.posts p.id p;
}
