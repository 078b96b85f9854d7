-- ===== src/Server/Client/Posts/Bounded.antt =====
-- The bodies that are sent to a feed are bounded (server/src/client/message_handler.rs).
use shamichan.Prelude.{◌≡◌, ◌≤◌, sym, subst, List, [], ◌∷◌, ◌++◌, length}
use shamichan.Server.Client.{Effect, set_body}

-- No open body is longer than 2000 characters.
abbrev pub IsBounded : Effect → Type 0
IsBounded (set_body feed page id body) = length body ≤ 2000
IsBounded x = Unit {0}

abbrev pub AllBounded : List Effect → Type 0
AllBounded [] = Unit {0}
AllBounded (x ∷ xs) = IsBounded x × AllBounded xs

pub append-AllBounded :
    (xs : List Effect) (x : Effect) → AllBounded xs → IsBounded x → AllBounded (xs ++ x ∷ [])
append-AllBounded [] x h b = (b, tt)
append-AllBounded (y ∷ xs) x h b = (h.0, append-AllBounded xs x h.1 b)

pub empty-AllBounded : (xs : List Effect) → xs ≡ [] → AllBounded xs
empty-AllBounded xs e = subst AllBounded (sym e) tt
