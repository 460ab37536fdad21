-- ===== src/HistoryRewriter.antt =====
-- fix-history.py: the author of every commit is rewritten. What `git` answers is given; the calls
-- that were made are the state, the newest first. What is printed is left out.
pub mod Safety
use public_trash.Base.{
  ℕ, Bool, true, false, not, ◌||◌, if◌then◌else◌, List, [], ◌∷◌, ◌++◌, length, Option, none, some,
  Exception, Result, ok, raise, runtime_error, called_process_error,
}
use public_trash.Base.Texts.{Text, codes, strip}

-- A call of `git`: its arguments and the folder it runs in.
pub record Call : Type 0 where
  pub args : List Text
  pub cwd : Text

-- Whether `git` is on the path; what a call prints, by the number of calls made before, `none` for
-- a failure.
pub record Git : Type 0 where
  pub which : Bool
  pub answer : ℕ → Call → Option Text

-- A value or an exception, and the calls.
abbrev pub Script : Type 0 → Type 0
Script A = List Call → Result A × List Call

module _ {A B : Type 0} where
  abbrev pub next : (A → Script B) → Result A × List Call → Result B × List Call
  next f (ok a, calls) = f a calls
  next f (raise problem, calls) = (raise problem, calls)

  infixl 5 ◌>>=◌
  abbrev pub ◌>>=◌ : Script A → (A → Script B) → Script B
  (m >>= f) calls = next f (m calls)

abbrev pub return : {A : Type 0} → A → Script A
return a calls = (ok a, calls)

abbrev pub fail : {A : Type 0} → Exception → Script A
fail problem calls = (raise problem, calls)

abbrev pub stdout : Option Text → Result Text
stdout none = raise called_process_error
stdout (some text) = ok text

-- `subprocess.run` with `check=True`.
abbrev pub run_checked : Git → Call → Script Text
run_checked git call calls = (stdout (git.answer (length calls) call), call ∷ calls)

unfoldable pub run_git : Git → List Text → Text → Script Text
run_git git args cwd = do
  text ← run_checked git (record { args = args; cwd = cwd })
  return (strip text)

unfoldable pub require_git : Git → Script (Unit {0})
require_git git = if git.which then return tt else fail runtime_error

abbrev pub is_empty : Text → Bool
is_empty [] = true
is_empty (c ∷ cs) = false

abbrev pub config_args : Text → List Text
config_args key = codes "config" ∷ codes "--get" ∷ key ∷ []

unfoldable pub get_current_git_user : Git → Text → Script (Text × Text)
unfolding run_git
get_current_git_user git repo = do
  name ← run_git git (config_args (codes "user.name")) repo
  email ← run_git git (config_args (codes "user.email")) repo
  if is_empty name || is_empty email then fail runtime_error else return (name, email)

abbrev pub toplevel_args : List Text
toplevel_args = codes "rev-parse" ∷ codes "--show-toplevel" ∷ []

abbrev pub translate : Result Text × List Call → Result (Unit {0}) × List Call
translate (ok text, calls) = (ok tt, calls)
translate (raise problem, calls) = (raise runtime_error, calls)

-- `except subprocess.CalledProcessError`: nothing else is raised by the call.
unfoldable pub ensure_repo : Git → Text → Script (Unit {0})
unfolding run_git
ensure_repo git repo calls = translate (run_git git toplevel_args repo calls)

unfoldable pub env_filter : Text → Text → Text
env_filter name email =
    codes "GIT_AUTHOR_NAME=\""
    ++ (name
        ++ (codes "\"; GIT_AUTHOR_EMAIL=\""
            ++ (email
                ++ (codes "\"; GIT_COMMITTER_NAME=\""
                    ++ (name
                        ++ (codes "\"; GIT_COMMITTER_EMAIL=\""
                            ++ (email
                                ++ codes
                                    "\"; export GIT_AUTHOR_NAME GIT_AUTHOR_EMAIL GIT_COMMITTER_NAME GIT_COMMITTER_EMAIL;")))))))

abbrev pub rewrite_args : Text → Text → List Text
unfolding env_filter
rewrite_args name email =
    codes "filter-branch"
    ∷ codes "--force"
    ∷ codes "--env-filter"
    ∷ env_filter name email
    ∷ codes "--tag-name-filter"
    ∷ codes "cat"
    ∷ codes "--"
    ∷ codes "--all"
    ∷ []

unfoldable pub rewrite_history : Git → Text → Text → Text → Script (Unit {0})
unfolding rewrite_args
rewrite_history git repo name email = do
  _ ← run_checked git (record { args = rewrite_args name email; cwd = repo })
  return tt

unfoldable pub main : Git → Text → Script ℕ
unfolding require_git ensure_repo run_git get_current_git_user rewrite_history
main git cwd = do
  _ ← require_git git
  _ ← ensure_repo git cwd
  toplevel ← run_git git toplevel_args cwd
  (name, email) ← get_current_git_user git toplevel
  _ ← rewrite_history git toplevel name email
  return 0
