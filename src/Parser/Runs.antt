-- ===== src/Parser/Runs.antt =====
-- What every function of src/parser.c keeps: the end of the text stays ahead, the tokens that are left
-- get fewer, and an exception comes with an error.
mod Steps
mod Sequences
mod Branches
mod Looks
pub use Steps.{
  HasEof, Ready, Onward, After, Runs, any, Onward-refl, Onward-lt, After-keeps, takes, keeps, fewer,
  anywhere, At, At-any, Stops, Stays, at_most,
}
pub use Sequences.{
  bind_left, stay_then, take_at, keep_at, Stops-any, take_then, keep_then, vacuous, take_on,
}
pub use Branches.{
  pure-Runs, throw-Runs, abort-Runs, branch-Runs, on-Runs, else-Runs, apart-Runs, narrower, nowhere,
  pick-Runs,
}
pub use Looks.{gets-Stays, line-Stays, type-Stays, lexeme_of-Stays, lexeme-Stays, assert-Stays}
