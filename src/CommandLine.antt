-- ===== src/CommandLine.antt =====
-- src/main.cpp: the arguments of the program, its signal handler and its exit code.
pub mod Arguments
use http_server.Prelude.{
  ℕ, zero, suc, ◌+◌, ◌<◌, ◌^◌, Bool, true, false, ◌&&◌, ◌||◌, List, [], ◌∷◌, ◌++◌, Option, none,
  some, ◌⊎◌, inl, inr, Bytes, codes, ltb, ◌==◌, if◌then◌else◌, size_limit, length,
}
use http_server.Number.{from_chars}
use http_server.Descriptor.{Fd, no_fd, valid}

-- The value, or the message of the `std::runtime_error`.
abbrev pub Checked : Type 0 → Type 0
Checked A = Bytes ⊎ A

abbrev pub bad_port : Bytes
bad_port = codes "port must be an integer from 1 to 65535"

abbrev pub port_of : Option (ℕ × Bytes) → Checked ℕ
port_of none = inl bad_port
port_of (some (port, c ∷ rest)) = inl bad_port
port_of (some (port, [])) = if port == 0 || ltb 65535 port then inl bad_port else inr port

-- `unsigned int` has 32 bits.
unfoldable pub parse_port : Bytes → Checked ℕ
parse_port input = port_of (from_chars (2 ^ 32) input)

abbrev pub not_positive : Bytes → Bytes
not_positive name = name ++ codes " must be a positive integer"

abbrev pub size_of : Bytes → Option (ℕ × Bytes) → Checked ℕ
size_of name none = inl (not_positive name)
size_of name (some (value, c ∷ rest)) = inl (not_positive name)
size_of name (some (value, [])) = if value == 0 then inl (not_positive name) else inr value

unfoldable pub parse_positive_size : Bytes → Bytes → Checked ℕ
parse_positive_size input name = size_of name (from_chars size_limit input)

pub record Options : Type 0 where
  pub port : ℕ
  pub document_root : Bytes
  pub bind_address : Bytes
  pub worker_count : ℕ
  pub queue_capacity : ℕ

abbrev pub argument : ℕ → List Bytes → Option Bytes
argument i [] = none
argument zero (a ∷ argv) = some a
argument (suc i) (a ∷ argv) = argument i argv

-- An argument, or its default.
abbrev pub given {ℓ} : {A : Type ℓ} → Option Bytes → (Bytes → A) → A → A
given none read otherwise = otherwise
given (some text) read otherwise = read text

infixl 5 ◌>>=◌
abbrev pub ◌>>=◌ : {A B : Type 0} → Checked A → (A → Checked B) → Checked B
inl message >>= next = inl message
inr found >>= next = next found

-- The first part of `main`: `argv` holds the name of the program first.
unfoldable pub read_options : List Bytes → Checked Options
read_options argv = do
  port ← given (argument 1 argv) parse_port (inr 8080)
  worker_count ← given (argument 4 argv) (λ a. parse_positive_size a (codes "worker count")) (inr 4)
  queue_capacity ←
      given (argument 5 argv) (λ a. parse_positive_size a (codes "queue capacity")) (inr 128)
  inr (record {
    port = port;
    document_root = given (argument 2 argv) (λ a. a) (codes "www");
    bind_address = given (argument 3 argv) (λ a. a) (codes "127.0.0.1");
    worker_count = worker_count;
    queue_capacity = queue_capacity;
  })

-- `install_shutdown_handler`: the notification descriptor that the handler reads, and whether both
-- signals have their handler; otherwise it throws.
unfoldable pub install_shutdown_handler : Fd → Bool → Bool → Fd × Checked (Unit {0})
install_shutdown_handler notification_fd sigint sigterm =
    if sigint && sigterm
    then (notification_fd, inr tt)
    else (no_fd, inl (codes "failed to install shutdown signal handlers"))

-- `handle_shutdown_signal`: the bytes in the pipe, where `write` takes its byte or does not.
unfoldable pub handle_shutdown_signal : Fd → Bool → ℕ → ℕ
handle_shutdown_signal notification_fd written bytes =
    if valid notification_fd && written then bytes + 1 else bytes

-- What the parts of `main` behind the arguments come to: the constructor of the server, `sigaction`
-- for both signals, `canonical` of the document root, `serve_forever`.
pub record Launch : Type 0 where
  pub constructed : Checked (Unit {0})
  pub sigint : Bool
  pub sigterm : Bool
  pub canonical : Checked (Unit {0})
  pub served : Checked (Unit {0})

unfoldable pub launched : Fd → Launch → Options → Checked (Unit {0})
unfolding install_shutdown_handler
launched notification_fd launch options = launch.constructed >>= λ _.
    (install_shutdown_handler notification_fd launch.sigint launch.sigterm).1 >>= λ _.
    launch.canonical >>= λ _. launch.served

abbrev usage : List Bytes → Bytes
usage [] = []
usage (program ∷ argv) =
    codes "usage: "
    ++ (program ++ codes " [port] [document-root] [bind-address] [workers] [queue-capacity]\n")

abbrev exit_with : Checked (Unit {0}) → ℕ × Bytes
exit_with (inr _) = (0, [])
exit_with (inl message) = (1, codes "http_server: " ++ (message ++ codes "\n"))

-- The exit code, and what is written to the standard error.
unfoldable pub main : Fd → Launch → List Bytes → ℕ × Bytes
unfolding read_options launched
main notification_fd launch argv =
    if ltb 6 (length argv)
    then (2, usage argv)
    else exit_with (read_options argv >>= launched notification_fd launch)
