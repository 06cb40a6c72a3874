-- ===== src/Middleware/Tests.antt =====
-- The theorems about names and paths at concrete inputs.
use faas_drl.Base.{◌≡◌, ◌↔◌, some}
use faas_drl.Base.Bytes.{Bytes, codes}
use faas_drl.Middleware.Resolver.{function_matcher}
use faas_drl.Middleware.Resolver.Matching.{IsMatch, function_matcher_iff}

abbrev async_path : Bytes
async_path = codes "/async-function/echo.dev/a/b?x=1"

function_matcher_iff_example :
    (function_matcher async_path ≡ some (codes "echo.dev", codes "/a/b"))
    ↔ IsMatch async_path (codes "echo.dev") (codes "/a/b")
function_matcher_iff_example = function_matcher_iff async_path (codes "echo.dev") (codes "/a/b")
