-- ===== src/Jsonmapper.antt =====
-- jsonmapper/mapper.go. gjson.Unmarshal into an array of objects is a parameter; the objects that it
-- makes stand in a heap, at whose end it puts them.
pub mod Experiments
use dyndao.Base.{String, List, ◌==◌, if◌then◌else◌}
use dyndao.Base.Outcome.{message}
use dyndao.Object.{Object, Array}
use dyndao.Orm.{Act, fail}

unfoldable pub to_object_array_from_json :
    (String → Act (List Object) Array) → String → Act (List Object) Array
to_object_array_from_json unmarshal json =
    if json == ""
    then fail (message "ToObjectsFromJSON: json parameter is empty")
    else unmarshal json
