-- ===== src/BoundedQueue/Contract.antt =====
-- What include/http/bounded_queue.hpp promises its callers: a list with a capacity, and a flag.
use http_server.Prelude.{ℕ, ◌<◌, ◌≡◌, Bool, true, false, List, [], ◌∷◌, ◌++◌, length}

pub record Contract {ℓ} (A : Type ℓ) : Type ℓ where
  pub capacity : ℕ
  pub items : List A
  pub closed : Bool

-- What a call comes to: `push` returns true or false, `pop` an item or nothing; `close`.
pub data Act {ℓ} (A : Type ℓ) : Type ℓ where
  stored refused handed : A → Act A
  ended shut : Act A

module _ {ℓ} {A : Type ℓ} where
  -- When a call may come to it, and what it does.
  pub data Allowed (s : Contract A) : Act A → Contract A → Type ℓ where
    stores :
        (x : A)
        → s.closed ≡ false
        → length s.items < s.capacity
        → Allowed s (stored x) (record s { items = s.items ++ x ∷ [] })
    refuses : (x : A) → s.closed ≡ true → Allowed s (refused x) s
    hands :
        (x : A) (rest : List A)
        → s.items ≡ x ∷ rest
        → Allowed s (handed x) (record s { items = rest })
    ends : s.closed ≡ true → s.items ≡ [] → Allowed s ended s
    shuts : Allowed s shut (record s { closed = true })

  pub data Behaves (last : Contract A) : Contract A → List (Act A) → Type ℓ where
    here : Behaves last last []
    next :
        {s t : Contract A} {a : Act A} {acts : List (Act A)}
        → Allowed s a t
        → Behaves last t acts
        → Behaves last s (a ∷ acts)
