-- ===== src/Cred/Render.antt =====
-- `renderDotenv` and `renderShell`.
pub mod Shell
pub mod Resolved
use openbao_authorizer.Prelude.{ℕ, Bool, List, [], ◌∷◌, ◌++◌, if◌then◌else◌, eqb}
use openbao_authorizer.Text.Bytes.{Str, bytes, cut}

-- The replacer of `renderDotenv`.
unfoldable pub escape_dotenv : Str → Str
escape_dotenv [] = []
escape_dotenv (b ∷ s) =
    (if eqb b b'\\'
      then b'\\' ∷ b'\\' ∷ []
      else if eqb b 34
      then b'\\' ∷ 34 ∷ []
      else if eqb b 10
      then b'\\' ∷ b'n' ∷ []
      else if eqb b 13
      then b'\\' ∷ b'r' ∷ []
      else if eqb b 9
      then b'\\' ∷ b't' ∷ []
      else b ∷ [])
    ++ escape_dotenv s

unfoldable pub render_dotenv : List Str → Str
unfolding escape_dotenv cut
render_dotenv [] = []
render_dotenv (value ∷ rest) =
    let (name, raw, _) = cut b'=' value in
    (name ++ b'=' ∷ 34 ∷ (escape_dotenv raw ++ 34 ∷ 10 ∷ [])) ++ render_dotenv rest

-- strings.ReplaceAll(raw, "'", `'"'"'`)
unfoldable pub quote : Str → Str
quote [] = []
quote (b ∷ s) = (if eqb b 39 then 39 ∷ 34 ∷ 39 ∷ 34 ∷ 39 ∷ [] else b ∷ []) ++ quote s

unfoldable pub export_line : Str → Str
unfolding quote cut
export_line value =
    let (name, raw, _) = cut b'=' value in
    bytes "export " ++ (name ++ b'=' ∷ 39 ∷ (quote raw ++ 39 ∷ 10 ∷ []))

unfoldable pub render_shell : List Str → Str
unfolding export_line
render_shell [] = []
render_shell (value ∷ rest) = export_line value ++ render_shell rest
