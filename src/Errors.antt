-- ===== src/Errors.antt =====
-- src/rust/src/errors.rs: error values, and the removal of credentials from upstream text.
mod Userinfo
mod Params
pub mod Redaction
unfoldable pub use Userinfo.{scrub_userinfo}
unfoldable pub use Params.{scrub_params, quoted_len}
use icebergr.Prelude.{List, [], ◌∷◌}
use icebergr.Prelude.Text.{Text}
use icebergr.Prelude.Sort.{sort}

-- Both passes, as every message that quotes an upstream error runs them.
unfoldable pub scrub : Text → Text
unfolding scrub_params scrub_userinfo
scrub e = scrub_params (scrub_userinfo e)

-- `RError::Other` with its formatted text kept apart: the constructor is the format string, and its
-- arguments are what is interpolated. `M` holds the messages of one module.
pub data RError (M : Type 0) : Type 0 where
  context : Text → Text → RError M
  config : Text → Text → List Text → RError M
  not_compiled_in : Text → Text → RError M
  message : M → RError M

unfoldable pub ctx : {M : Type 0} → Text → Text → RError M
unfolding scrub
ctx what e = context what (scrub e)

-- An empty list of keys is printed as "none".
unfoldable pub config_err : {M : Type 0} → Text → List Text → Text → RError M
unfolding scrub sort
config_err what keys e = config what (scrub e) (sort keys)
