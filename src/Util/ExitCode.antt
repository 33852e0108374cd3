-- ===== src/Util/ExitCode.antt =====
-- The exit code of a program, by `app_wrapper`.
use osmdbt_pgoutput.Base.{ℕ, Bool, ◌≡◌, if◌then◌else◌}
use osmdbt_pgoutput.Base.Result.{
  Exception, argument_error, options_error, yaml_error, Result, ok, throws, fault, ◌>>=◌, ◌>>◌,
}

-- The handlers, in their order; the last one takes any other exception.
abbrev pub exit_code : Exception → ℕ
exit_code (argument_error message) = 3
exit_code options_error = 3
exit_code yaml_error = 3
exit_code other = 2

abbrev pub catch : Result Bool → Result ℕ
catch (ok done) = ok (if done then 0 else 1)
catch (throws e) = ok (exit_code e)
catch fault = fault

-- The command line, the configuration and then the program itself.
unfoldable pub app_wrapper :
    {C : Type 0} → Result (Unit {0}) → Result C → (C → Result Bool) → Result ℕ
app_wrapper parse_command_line config app = catch (parse_command_line >> config >>= app)

exit_code-ne-zero : (e : Exception) → exit_code e ≡ 0 → ⊥
exit_code-ne-zero (argument_error message) h = cc
exit_code-ne-zero options_error h = cc
exit_code-ne-zero yaml_error h = cc
exit_code-ne-zero other h = cc
