-- ===== src/Console.antt =====
-- What the commands init and login read and change: the terminal, the files, other programs.
mod Defs
mod Rules
pub use Rules.{
  Leads, Keeps, Keeps-pure, Keeps-raise, Keeps-or_raise, Keeps-branch, Keeps-bind, Leads-bind,
  bind-ok, bind-eq, >>=-eq-ok, keeps_rules,
}
pub use Defs.{
  Console, Action, pure, raise, or_raise, or_error, ◌>>◌, branch, say, say_all, read_line,
  read_password, create_file, remove_file, write_file,
}
unfoldable pub use Defs.{◌>>=◌, prompt, prompt_secret, is_yes, prompt_yes_no, given_or}
