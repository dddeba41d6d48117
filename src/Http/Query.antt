-- ===== src/Http/Query.antt =====
-- `createQueryStr` of src/mexc_http_spot_session.cpp and src/mexc_http_futures_session.cpp, which are
-- the same text.
pub mod Laws
use mexc_cpp_api.Base.{List, [], ◌∷◌, ◌++◌, is_empty, drop_last, if◌then◌else◌}
use mexc_cpp_api.Base.Text.{Text, codes}
use mexc_cpp_api.Base.StringMap.{StringMap}

-- The loop over the parameters, in the order of their keys.
append_parameters : Text → StringMap Text → Text
append_parameters query_str [] = query_str
append_parameters query_str ((key, value) ∷ parameters) =
    append_parameters (query_str ++ (key ++ (codes "=" ++ (value ++ codes "&")))) parameters

unfoldable pub create_query_str : StringMap Text → Text
unfolding append_parameters
create_query_str parameters =
    let query_str = append_parameters [] parameters in
    if is_empty query_str then query_str else drop_last query_str
