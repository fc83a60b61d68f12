-- ===== src/FilePath/Tests.antt =====
-- Runs of the path functions, with the answers of Go's documentation.
use helvilette.Prelude.{◌≡◌, refl, [], ◌∷◌}
use helvilette.FilePath.{clean, join, base, dir}

clean_tests :
    (clean "a//c" ≡ "a/c")
    × (clean "a/./b/../c/" ≡ "a/c")
    × (clean "/../a" ≡ "/a")
    × (clean "../../x/.." ≡ "../..")
    × (clean "" ≡ ".")
    × (clean "/" ≡ "/")
unfolding clean
clean_tests = (refl, refl, refl, refl, refl, refl)

join_tests :
    (join ("/srv" ∷ "nginx" ∷ "playbook.yml" ∷ []) ≡ "/srv/nginx/playbook.yml")
    × (join ("" ∷ "a" ∷ "../x" ∷ []) ≡ "x")
    × (join [] ≡ "")
unfolding join
join_tests = (refl, refl, refl)

base_tests : (base "git@host:org/books.git" ≡ "books.git") × (base "/a/b/" ≡ "b") × (base "/" ≡ "/")
unfolding base
base_tests = (refl, refl, refl)

dir_tests : (dir "/a/b.yml" ≡ "/a") × (dir "b.yml" ≡ ".") × (dir "/b.yml" ≡ "/")
unfolding dir
dir_tests = (refl, refl, refl)
