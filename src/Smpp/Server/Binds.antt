-- ===== src/Smpp/Server/Binds.antt =====
-- smpp/server.py: authentication.
use wholesale_project.Base.{
  ◌<◌, not, true, false, ◌&&◌, some, ◌≡◌, ◌↔◌, sym, same, same→eq, same_refl, arith, Option-cases,
  inl, inr,
}
use wholesale_project.Smpp.Pdu.Wire.{Text}
use wholesale_project.Smpp.Pdu.Types.{Bind}
use wholesale_project.Smpp.Server.{
  ServerConfig, Server, password_of, listed, is_empty, authenticate,
}

-- The peer may connect: there is no list of addresses, or it is on the list.
abbrev pub IsAdmitted : ServerConfig → Text → Type 0
IsAdmitted c ip = not (is_empty c.ip_allowlist) && not (listed ip c.ip_allowlist) ≡ false

-- A bind is authenticated with status 0 exactly when the address is admitted, the password is that of
-- the system's credentials, and the system has fewer binds than the configured maximum.
pub authenticate_exact :
    (s : Server) (b : Bind) (ip : Text)
    → (authenticate s b ip ≡ 0) ↔ (
        IsAdmitted s.config ip
        × (password_of b.system_id s.config.credentials ≡ some b.password)
        × ((s.creds b.system_id).binds < s.config.max_binds_per_system))
unfolding authenticate
authenticate_exact s b ip = (
  λ e. elim (Option-cases (password_of b.system_id s.config.credentials)) [
    | inl none_found ↦ absurd (ground arith)
    | inr (expected, found) ↦
        let checked : same expected b.password ≡ true = ground arith in
        (ground arith, rw (sym (same→eq expected b.password checked)) found, ground arith)
  ],
  λ (h, found, l).
      let checked : same b.password b.password ≡ true = same_refl b.password in ground arith,
)
