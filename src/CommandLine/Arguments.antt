-- ===== src/CommandLine/Arguments.antt =====
-- Which arguments src/main.cpp accepts.
use http_server.Prelude.{
  ℕ, ◌≡◌, ◌≢◌, ◌<◌, ◌≤◌, ◌^◌, ◌↔◌, refl, ap, [], ◌∷◌, Option, none, some, inl, inr, Bytes, codes,
  arith, size_limit, subst, List,
}
use http_server.Number.{AreDigits, from_chars}
use http_server.Number.Value.{value, from_chars_iff}
use http_server.Connection.{ConnectionConfig}
use http_server.WorkerPool.{WorkerPool, create}
use http_server.WorkerPool.Fresh.{fresh, fresh-create}
use http_server.CommandLine.{
  Checked, given, ◌>>=◌, argument, Options, read_options, parse_port, port_of, parse_positive_size,
  size_of,
}

port_of-inr :
    (r : Option (ℕ × Bytes)) (p : ℕ)
    → port_of r ≡ inr p
    → (r ≡ some (p, [])) × (0 < p) × (p ≤ 65535)
port_of-inr none p h = cc
port_of-inr (some (n, c ∷ rest)) p h = cc
port_of-inr (some (n, [])) p h = ground arith

-- parse_port returns p exactly if its argument is a non-empty string of digits of value p, and p is
-- from 1 to 65535.
pub parse_port_iff :
    (input : Bytes) (p : ℕ)
    → (parse_port input ≡ inr p)
      ↔ ((input ≢ []) × AreDigits input × (value input ≡ p) × (0 < p) × (p ≤ 65535))
unfolding parse_port
parse_port_iff input p = (taken, accepted)
  where
    taken :
        port_of (from_chars (2 ^ 32) input) ≡ inr p
        → (input ≢ []) × AreDigits input × (value input ≡ p) × (0 < p) × (p ≤ 65535)
    taken h =
        let (whole, low, high) = port_of-inr (from_chars (2 ^ 32) input) p h in
        let (filled, digits, worth, small) = (from_chars_iff (2 ^ 32) p input).0 whole in
        (filled, digits, worth, low, high)

    accepted :
        (input ≢ []) × AreDigits input × (value input ≡ p) × (0 < p) × (p ≤ 65535)
        → port_of (from_chars (2 ^ 32) input) ≡ inr p
    accepted (filled, digits, worth, low, high) =
        let whole = (from_chars_iff (2 ^ 32) p input).1 (filled, digits, worth, omega arith) in
        rw whole (ground arith)

size_of-inr :
    (name : Bytes) (r : Option (ℕ × Bytes)) (n : ℕ)
    → size_of name r ≡ inr n
    → (r ≡ some (n, [])) × (0 < n)
size_of-inr name none n h = cc
size_of-inr name (some (k, c ∷ rest)) n h = cc
size_of-inr name (some (k, [])) n h = ground arith

-- parse_positive_size returns n exactly if its argument is a non-empty string of digits of value n,
-- n is not zero and below 2^64.
pub parse_positive_size_iff :
    (input name : Bytes) (n : ℕ)
    → (parse_positive_size input name ≡ inr n)
      ↔ ((input ≢ []) × AreDigits input × (value input ≡ n) × (0 < n) × (n < size_limit))
unfolding parse_positive_size
parse_positive_size_iff input name n = (taken, accepted)
  where
    taken :
        size_of name (from_chars size_limit input) ≡ inr n
        → (input ≢ []) × AreDigits input × (value input ≡ n) × (0 < n) × (n < size_limit)
    taken h =
        let (whole, positive) = size_of-inr name (from_chars size_limit input) n h in
        let (filled, digits, worth, small) = (from_chars_iff size_limit n input).0 whole in
        (filled, digits, worth, positive, small)

    accepted :
        (input ≢ []) × AreDigits input × (value input ≡ n) × (0 < n) × (n < size_limit)
        → size_of name (from_chars size_limit input) ≡ inr n
    accepted (filled, digits, worth, positive, small) =
        let whole = (from_chars_iff size_limit n input).1 (filled, digits, worth, small) in
        rw whole (ground arith)

-- A default or a text that is read, where both meet a bound.
given-bound :
    (P : ℕ → Type 0) (found : Option Bytes) (read : Bytes → Checked ℕ) (otherwise a : ℕ)
    → P otherwise
    → ((text : Bytes) (n : ℕ) → read text ≡ inr n → P n)
    → given found read (inr otherwise) ≡ inr a
    → P a
given-bound P none read otherwise a low bound h = subst P (cc) low
given-bound P (some text) read otherwise a low bound h = bound text a h

chain :
    {A B : Type 0} (m : Checked A) (f : A → Checked B) (b : B)
    → (m >>= f) ≡ inr b
    → (a : A) × (m ≡ inr a) × (f a ≡ inr b)
chain (inl message) f b h = cc
chain (inr a) f b h = (a, refl, h)

inr_inj : {A : Type 0} {a b : A} → ◌≡◌ {A = Checked A} (inr a) (inr b) → a ≡ b
inr_inj h = cc

port_bound : (text : Bytes) (n : ℕ) → parse_port text ≡ inr n → (0 < n) × (n ≤ 65535)
port_bound text n h =
    let (filled, digits, worth, low, high) = (parse_port_iff text n).0 h in (low, high)

size_bound : (name text : Bytes) (n : ℕ) → parse_positive_size text name ≡ inr n → 0 < n
size_bound name text n h =
    let (filled, digits, worth, positive, small) = (parse_positive_size_iff text name n).0 h in
    positive

-- The arguments that main accepts lie in their bounds, the defaults included, and a pool can be
-- created with them: the port is from 1 to 65535, workers and capacity are not zero.
pub read_options_bounds :
    (argv : List Bytes) (options : Options) (config : ConnectionConfig)
    → read_options argv ≡ inr options
    → (0 < options.port)
      × (options.port ≤ 65535)
      × ((pool : WorkerPool) × (create options.worker_count options.queue_capacity config
            ≡ some pool))
unfolding read_options
read_options_bounds argv options config h =
    let (port, read_port, h1) = chain (given (argument 1 argv) parse_port (inr 8080)) _ options h in
    let (workers, read_workers, h2) =
      chain (given (argument 4 argv) (λ a. parse_positive_size a (codes "worker count")) (inr 4)) _
        options h1 in
    let (places, read_places, h3) =
      chain
        (given (argument 5 argv) (λ a. parse_positive_size a (codes "queue capacity")) (inr 128)) _
        options h2 in
    let (low, high) =
      given-bound (λ n. (0 < n) × (n ≤ 65535)) (argument 1 argv) parse_port 8080 port
        (omega arith, omega arith) port_bound read_port in
    let some_worker =
      given-bound (λ n. 0 < n) (argument 4 argv) _ 4 workers (omega arith)
        (size_bound (codes "worker count")) read_workers in
    let some_place =
      given-bound (λ n. 0 < n) (argument 5 argv) _ 128 places (omega arith)
        (size_bound (codes "queue capacity")) read_places in
    let same_port : port ≡ options.port = ap (λ (o : Options). o.port) (inr_inj h3) in
    let same_workers : workers ≡ options.worker_count =
      ap (λ (o : Options). o.worker_count) (inr_inj h3) in
    let same_places : places ≡ options.queue_capacity =
      ap (λ (o : Options). o.queue_capacity) (inr_inj h3) in
    (
      omega arith,
      omega arith,
      (
        fresh options.worker_count options.queue_capacity config,
        fresh-create options.worker_count options.queue_capacity config (omega arith) (omega arith),
      ),
    )
