-- ===== src/Listener/Leaks.antt =====
-- Which descriptors are closed where `bind_ipv4` of src/tcp_listener.cpp or `make_shutdown_pipe` of
-- src/server.cpp fails: those that had been opened, and so none leaks.
use http_server.Prelude.{
  ℕ, ◌≡◌, refl, Bool, true, false, ◌&&◌, List, ◌∷◌, Option, none, some, ◌⊎◌, inl, inr, Bytes,
  if◌then◌else◌, pos, negsuc, same_int,
}
use http_server.Descriptor.{Fd, no_fd, valid, closed_by_reset}
use http_server.Listener.{
  SetupError, socket_failed, reuse_failed, bind_failed, listen_failed, getsockname_failed,
  invalid_address, bound_listener, piped, SocketCalls, TcpListener, bind_ipv4, PipeCalls,
  ShutdownPipe, make_shutdown_pipe,
}

-- What is left behind: a listener that holds the open socket, or an error and the socket closed.
abbrev pub LeavesSocket : SocketCalls → List ℕ → (SetupError ⊎ TcpListener) × List ℕ → Type 0
LeavesSocket calls closed (inr listener, closed') =
    (listener.fd ≡ calls.opened)
    × (valid calls.opened ≡ true)
    × (calls.own_port ≡ some listener.port)
    × (closed' ≡ closed)
LeavesSocket calls closed (inl why, closed') =
    ((n : ℕ) × (calls.opened ≡ pos n) × (closed' ≡ n ∷ closed))
    ⊎ ((valid calls.opened ≡ false) × (closed' ≡ closed))

gave_up :
    (calls : SocketCalls) (opened : Fd) (why : SetupError) (closed : List ℕ)
    → calls.opened ≡ opened
    → LeavesSocket calls closed (inl why, closed_by_reset calls.opened no_fd closed)
unfolding closed_by_reset same_int
gave_up calls (pos n) why closed e = rw e (inl (n, refl, refl))
gave_up calls (negsuc n) why closed e = rw e (inr (refl, refl))

branch {ℓ} :
    {A : Type 0} (P : A → Type ℓ) (b : Bool) (x y : A)
    → (b ≡ true → P x)
    → (b ≡ false → P y)
    → P (if b then x else y)
branch P true x y first second = first refl
branch P false x y first second = second refl

bound-LeavesSocket :
    (calls : SocketCalls) (port : Option ℕ) (closed : List ℕ)
    → valid calls.opened ≡ true
    → calls.own_port ≡ port
    → LeavesSocket calls closed (bound_listener calls.opened port closed)
unfolding bound_listener closed_by_reset
bound-LeavesSocket calls none closed v e = gave_up calls calls.opened getsockname_failed closed refl
bound-LeavesSocket calls (some port) closed v e = (refl, v, e, refl)

-- bind_ipv4 leaves a listener that holds the open socket, with the port that the system reports and
-- nothing closed; or it fails, and the socket has been closed once, if it was opened.
pub bind_ipv4-LeavesSocket :
    (address : Bytes) (calls : SocketCalls) (closed : List ℕ)
    → LeavesSocket calls closed (bind_ipv4 address calls closed)
unfolding bind_ipv4
bind_ipv4-LeavesSocket address calls closed =
    let P = λ (r : (SetupError ⊎ TcpListener) × List ℕ). LeavesSocket calls closed r in
    let fails =
      λ (why : SetupError) (b : Bool) (e : b ≡ false). gave_up calls calls.opened why closed refl in
    branch P (valid calls.opened) _ _
      (λ v.
        branch P calls.reusable _ _
          (λ e.
            branch P calls.parsed _ _
              (λ f.
                branch P calls.bound _ _
                  (λ g.
                    branch P calls.listening _ _
                      (λ h. bound-LeavesSocket calls calls.own_port closed v refl)
                      (fails listen_failed calls.listening))
                  (fails bind_failed calls.bound))
              (fails (invalid_address address) calls.parsed))
          (fails reuse_failed calls.reusable))
      (fails socket_failed (valid calls.opened))

-- What is left behind: both ends open and held, or an error and both closed, if they were made.
abbrev pub LeavesPipe : PipeCalls → List ℕ → (SetupError ⊎ ShutdownPipe) × List ℕ → Type 0
LeavesPipe calls closed (inr ends, closed') =
    ((r : ℕ) × (w : ℕ) × (calls.made ≡ some (r, w))
      × (ends.read_end ≡ pos r)
      × (ends.write_end ≡ pos w))
    × (closed' ≡ closed)
LeavesPipe calls closed (inl why, closed') =
    ((r : ℕ) × (w : ℕ) × (calls.made ≡ some (r, w)) × (closed' ≡ r ∷ w ∷ closed))
    ⊎ ((calls.made ≡ none) × (closed' ≡ closed))

piped-LeavesPipe :
    (calls : PipeCalls) (made : Option (ℕ × ℕ)) (closed : List ℕ)
    → calls.made ≡ made
    → LeavesPipe calls closed (piped calls made closed)
unfolding piped closed_by_reset same_int
piped-LeavesPipe calls none closed e = inr (e, refl)
piped-LeavesPipe calls (some (r, w)) closed e =
    let P = λ (x : (SetupError ⊎ ShutdownPipe) × List ℕ). LeavesPipe calls closed x in
    branch P (calls.read_cloexec && calls.write_cloexec) _ _
      (λ f.
        branch P (calls.flags_read && calls.flags_set) _ _ (λ g. ((r, w, e, refl, refl), refl))
          (λ g. inl (r, w, e, refl)))
      (λ f. inl (r, w, e, refl))

-- make_shutdown_pipe leaves both ends open and held, or it fails, and both ends have been closed once,
-- if they were made.
pub make_shutdown_pipe-LeavesPipe :
    (calls : PipeCalls) (closed : List ℕ)
    → LeavesPipe calls closed (make_shutdown_pipe calls closed)
unfolding make_shutdown_pipe
make_shutdown_pipe-LeavesPipe calls closed = piped-LeavesPipe calls calls.made closed refl
