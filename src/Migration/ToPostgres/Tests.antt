-- ===== src/Migration/ToPostgres/Tests.antt =====
-- src/migration at a collection of four fields, and the names of columns that clash.
use dbdock.Base.{◌≡◌, refl, String, Text, codes, true, false, none, some, [], ◌∷◌, map, All}
use dbdock.Migration.Names.{to_snake_case, singularize}
use dbdock.Migration.Values.{by_count}
use dbdock.Migration.Types.{FieldInfo, field, nil, cons, MongoCollection, infos}
use dbdock.Migration.References.{
  detect_references, detect_field_references, field_references, guess_target_collection,
  first_match, base_name,
}
use dbdock.Migration.References.Known.{Targets, detect_references-Targets}
use dbdock.Migration.ToPostgres.{
  generate_mongo_to_postgres_plan, map_collection, collected, with_id, rename_columns,
}
use dbdock.Migration.Fields.{
  process_fields, process_field, place_field, handle_nested_object, handle_array,
}
use dbdock.Migration.ToPostgres.Complete.{TakesAll, generate_mongo_to_postgres_plan-TakesAll}

abbrev scalar : String → String → FieldInfo
scalar name kind = record {
  name = codes name;
  path = codes name;
  types = (codes kind, 9) ∷ [];
  frequency = 100000;
  is_array = false;
  is_object_id = false;
  is_nested_object = false;
  array_element_type = none;
  depth = 0;
}

abbrev users : MongoCollection
users = record {
  name = codes "users";
  fields =
      field (scalar "firstName" "string") nil
      ∷ field (record (scalar "address" "object") { is_nested_object = true })
          (cons (field (record (scalar "zipCode" "int") { path = codes "address.zipCode" }) nil)
            nil)
      ∷ field
          (record (scalar "tags" "array") {
            is_array = true;
            array_element_type = some (codes "string | null");
          })
          nil
      ∷ field (record (scalar "teamId" "objectId") { is_object_id = true }) nil
      ∷ [];
}

abbrev teams : MongoCollection
teams = record { name = codes "Teams"; fields = field (scalar "_id" "objectId") nil ∷ [] }

snake_test : to_snake_case (codes "zipCode of-Home") ≡ codes "zip_code_of_home"
unfolding to_snake_case
snake_test = refl

references_test :
    map
      (λ e. map {B = Text} (λ r. r.target_collection) e.1)
      (detect_references (users ∷ teams ∷ []))
    ≡ (codes "Teams" ∷ []) ∷ [] ∷ []
unfolding detect_references detect_field_references field_references guess_target_collection
    first_match base_name to_snake_case singularize
references_test = refl

detect_references-Targets_example :
    All
      (λ e. Targets (codes "users" ∷ codes "Teams" ∷ []) e.1)
      (detect_references (users ∷ teams ∷ []))
detect_references-Targets_example = detect_references-Targets (users ∷ teams ∷ [])

generate_mongo_to_postgres_plan-TakesAll_example :
    TakesAll (users ∷ teams ∷ []) (generate_mongo_to_postgres_plan (users ∷ teams ∷ []) 2).0
generate_mongo_to_postgres_plan-TakesAll_example =
    generate_mongo_to_postgres_plan-TakesAll (users ∷ teams ∷ []) 2
      ((refl, (refl, (refl, (refl, tt)))), ((refl, tt), tt))

columns_test :
    map {B = Text} (λ f. f.target_column) (map_collection users [] [] 2).0.fields
    ≡ codes "id" ∷ codes "first_name" ∷ codes "team_id" ∷ []
unfolding map_collection collected process_fields process_field place_field handle_nested_object
    handle_array with_id rename_columns by_count infos to_snake_case
columns_test = refl

-- Three fields that make one column get two names.
clash_test :
    map {B = Text}
      (λ f. f.target_column)
      (map_collection
        (record {
          name = codes "t";
          fields =
              field (scalar "_id" "objectId") nil
              ∷ field (scalar "a b" "int") nil
              ∷ field (scalar "a-b" "int") nil
              ∷ field (scalar "a_b" "int") nil
              ∷ [];
        })
        []
        []
        2).0.fields
    ≡ codes "id" ∷ codes "a_b" ∷ codes "a_b_original" ∷ codes "a_b_original" ∷ []
unfolding map_collection collected process_fields process_field place_field with_id rename_columns
    by_count to_snake_case
clash_test = refl
