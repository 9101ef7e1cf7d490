-- ===== src/Startup/Listening.antt =====
-- When run gives up for want of a listening socket, and when it goes on without one.
use graphserv.Prelude.{ℕ, zero, suc, ◌≡◌, ◌≢◌, ◌↔◌, ◌⊎◌, inl, inr, refl, ap, ◌∙◌, none, some, arith}
use graphserv.Startup.{
  SocketCalls, socket_fails, setsockopt_fails, bind_fails, listen_fails, listening,
  open_listen_socket, listen_on, listen_all,
}

-- A call behind socket() fails.
abbrev pub IsClosed : SocketCalls → Type 0
IsClosed setsockopt_fails = Unit
IsClosed bind_fails = Unit
IsClosed listen_fails = Unit
IsClosed _ = ⊥

-- The port is enabled, and a call behind socket() fails.
abbrev pub IsRefused : ℕ → SocketCalls → Type 0
IsRefused port calls = (port ≢ 0) × IsClosed calls

-- Nothing listens on the port: it is disabled, or socket() fails.
abbrev pub IsDeaf : ℕ → SocketCalls → Type 0
IsDeaf port calls = (port ≡ 0) ⊎ (calls ≡ socket_fails)

-- A descriptor is not that of the standard input.
abbrev pub IsOpen : SocketCalls → Type 0
IsOpen (listening fd) = fd ≢ 0
IsOpen _ = Unit

refused_none : (port : ℕ) (calls : SocketCalls) → IsRefused port calls → listen_on port calls ≡ none
unfolding listen_on open_listen_socket
refused_none zero calls r = absurd (r.0 refl)
refused_none (suc port) socket_fails r = absurd r.1
refused_none (suc port) setsockopt_fails r = refl
refused_none (suc port) bind_fails r = refl
refused_none (suc port) listen_fails r = refl
refused_none (suc port) (listening fd) r = absurd r.1

listen_on-cases :
    (port : ℕ) (calls : SocketCalls)
    → IsRefused port calls ⊎ ((fd : ℕ) × (listen_on port calls ≡ some fd))
unfolding listen_on open_listen_socket
listen_on-cases zero calls = inr (0, refl)
listen_on-cases (suc port) socket_fails = inr (0, refl)
listen_on-cases (suc port) setsockopt_fails = inl ((λ e. cc), tt)
listen_on-cases (suc port) bind_fails = inl ((λ e. cc), tt)
listen_on-cases (suc port) listen_fails = inl ((λ e. cc), tt)
listen_on-cases (suc port) (listening fd) = inr (fd, refl)

listen_on-IsDeaf :
    (port : ℕ) (calls : SocketCalls)
    → IsOpen calls
    → (listen_on port calls ≡ some 0) ↔ IsDeaf port calls
unfolding listen_on open_listen_socket
listen_on-IsDeaf zero calls ne = ((λ e. inl refl), λ d. refl)
listen_on-IsDeaf (suc port) socket_fails ne = ((λ e. inr refl), λ d. refl)
listen_on-IsDeaf (suc port) setsockopt_fails ne = ((λ e. cc), λ d. ground arith)
listen_on-IsDeaf (suc port) bind_fails ne = ((λ e. cc), λ d. ground arith)
listen_on-IsDeaf (suc port) listen_fails ne = ((λ e. cc), λ d. ground arith)
listen_on-IsDeaf (suc port) (listening fd) ne = ((λ e. absurd (ne (cc))), λ d. ground arith)

abbrev pub no_sockets : ℕ × ℕ
no_sockets = (0, 0)

module _ (tcp_port http_port : ℕ) (tcp_calls http_calls : SocketCalls) where
  -- run gives up exactly if one of the ports is enabled and setsockopt, bind or listen fails for it.
  pub listen_all-IsRefused :
      (listen_all tcp_port http_port tcp_calls http_calls ≡ none)
      ↔ (IsRefused tcp_port tcp_calls ⊎ IsRefused http_port http_calls)
  unfolding listen_all
  listen_all-IsRefused = (to, from)
    where
      to :
          listen_all tcp_port http_port tcp_calls http_calls ≡ none
          → IsRefused tcp_port tcp_calls ⊎ IsRefused http_port http_calls
      to e = elim (listen_on-cases tcp_port tcp_calls) [
        | inl r ↦ inl r
        | inr (fd, f) ↦ elim (listen_on-cases http_port http_calls) [
          | inl r ↦ inr r
          | inr (fd', g) ↦ let q : some (fd, fd') ≡ none = rw (listen_all, f, g) at e in cc
        ]
      ]

      from :
          IsRefused tcp_port tcp_calls ⊎ IsRefused http_port http_calls
          → listen_all tcp_port http_port tcp_calls http_calls ≡ none
      from (inl r) = rw (listen_all, refused_none tcp_port tcp_calls r) refl
      from (inr r) = elim (listen_on-cases tcp_port tcp_calls) [
        | inl t ↦ rw (listen_all, refused_none tcp_port tcp_calls t) refl
        | inr (fd, f) ↦ rw (listen_all, f, refused_none http_port http_calls r) refl
      ]

  -- If an open socket never has the descriptor 0: run goes on without any listening socket exactly if
  -- each port is disabled or socket() fails for it.
  pub listen_all-IsDeaf :
      IsOpen tcp_calls
      → IsOpen http_calls
      → (listen_all tcp_port http_port tcp_calls http_calls ≡ some no_sockets)
        ↔ (IsDeaf tcp_port tcp_calls × IsDeaf http_port http_calls)
  unfolding listen_all
  listen_all-IsDeaf tcp_open http_open = (to, from)
    where
      to :
          listen_all tcp_port http_port tcp_calls http_calls ≡ some no_sockets
          → IsDeaf tcp_port tcp_calls × IsDeaf http_port http_calls
      to e = elim (listen_on-cases tcp_port tcp_calls) [
        | inl r ↦
            let q : none ≡ some no_sockets =
              rw (listen_all, refused_none tcp_port tcp_calls r) at e in
            cc
        | inr (fd, f) ↦ elim (listen_on-cases http_port http_calls) [
          | inl r ↦
              let q : none ≡ some no_sockets =
                rw (listen_all, f, refused_none http_port http_calls r) at e in
              cc
          | inr (fd', g) ↦
              let q : some (fd, fd') ≡ some no_sockets = rw (listen_all, f, g) at e in
              let p : fd ≡ 0 = cc in
              let p' : fd' ≡ 0 = cc in
              (
                (listen_on-IsDeaf tcp_port tcp_calls tcp_open).0 (f ∙ ap some p),
                (listen_on-IsDeaf http_port http_calls http_open).0 (g ∙ ap some p'),
              )
        ]
      ]

      from :
          IsDeaf tcp_port tcp_calls × IsDeaf http_port http_calls
          → listen_all tcp_port http_port tcp_calls http_calls ≡ some no_sockets
      from d =
          rw
            (
              listen_all,
              (listen_on-IsDeaf tcp_port tcp_calls tcp_open).1 d.0,
              (listen_on-IsDeaf http_port http_calls http_open).1 d.1,
            )
            refl
