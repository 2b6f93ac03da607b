-- ===== src/Exec.antt =====
-- Methods that change an object and may raise: what was written before a raise stays written, so the
-- state comes back beside the error too.
mod Monad
pub mod Triple
pub use Monad.{Result, ok, err, Exec, continue, ◌>>◌, bind_ok}
unfoldable pub use Monad.{pure, raise, modify, gets, lift, ◌>>=◌}
