-- ===== src/Tests/Trees.antt =====
-- Trees that the parser gives, as tests/out/parsed_17.json, parsed_22.json and parsed_31.json record
-- them.
use pg_fort.Base.{List, [], ◌∷◌, true, Text, codes}
use pg_fort.Query.Json.{
  Json, boolean, number, string, array, object, Items, nil, cons, Fields, end, field,
}

abbrev pub items_of : List Json → Items
items_of [] = nil
items_of (j ∷ js) = cons j (items_of js)

abbrev pub fields_of : List (Text × Json) → Fields
fields_of [] = end
fields_of ((k, v) ∷ fs) = field k v (fields_of fs)

abbrev pub arr : List Json → Json
arr js = array (items_of js)

abbrev pub obj : List (Text × Json) → Json
obj fs = object (fields_of fs)

abbrev pub id_column_constraints : Json
id_column_constraints = arr (
    (obj (
      (
        codes "Constraint",
        (obj (
            (codes "contype", (string (codes "CONSTR_PRIMARY")))
            ∷ (codes "location", (number (codes "45")))
            ∷ [])),
      )
      ∷ []))
    ∷ [])

abbrev pub id_column : Json
id_column = obj (
    (codes "colname", (string (codes "id")))
    ∷ (codes "constraints", id_column_constraints)
    ∷ (codes "is_local", (boolean true))
    ∷ (codes "location", (number (codes "32")))
    ∷ (
      codes "typeName",
      (obj (
          (codes "location", (number (codes "35")))
          ∷ (
            codes "names",
            (arr (
                (obj
                  ((codes "String", (obj ((codes "str", (string (codes "bigserial"))) ∷ []))) ∷ []))
                ∷ [])),
          )
          ∷ (codes "typemod", (number (codes "-1")))
          ∷ [])),
    )
    ∷ [])

abbrev pub name_column_constraints : Json
name_column_constraints = arr (
    (obj (
      (
        codes "Constraint",
        (obj (
            (codes "contype", (string (codes "CONSTR_NOTNULL")))
            ∷ (codes "location", (number (codes "68")))
            ∷ [])),
      )
      ∷ []))
    ∷ [])

abbrev pub name_column : Json
name_column = obj (
    (codes "colname", (string (codes "name")))
    ∷ (codes "constraints", name_column_constraints)
    ∷ (codes "is_local", (boolean true))
    ∷ (codes "location", (number (codes "58")))
    ∷ (
      codes "typeName",
      (obj (
          (codes "location", (number (codes "63")))
          ∷ (
            codes "names",
            (arr (
                (obj ((codes "String", (obj ((codes "str", (string (codes "text"))) ∷ []))) ∷ []))
                ∷ [])),
          )
          ∷ (codes "typemod", (number (codes "-1")))
          ∷ [])),
    )
    ∷ [])

abbrev pub tags_column_constraints : Json
tags_column_constraints = arr (
    (obj (
      (
        codes "Constraint",
        (obj (
            (codes "contype", (string (codes "CONSTR_NOTNULL")))
            ∷ (codes "location", (number (codes "90")))
            ∷ [])),
      )
      ∷ []))
    ∷ [])

abbrev pub tags_column : Json
tags_column = obj (
    (codes "colname", (string (codes "tags")))
    ∷ (codes "constraints", tags_column_constraints)
    ∷ (codes "is_local", (boolean true))
    ∷ (codes "location", (number (codes "78")))
    ∷ (
      codes "typeName",
      (obj (
          (
            codes "arrayBounds",
            (arr (
                (obj ((codes "Integer", (obj ((codes "ival", (number (codes "-1"))) ∷ []))) ∷ []))
                ∷ [])),
          )
          ∷ (codes "location", (number (codes "83")))
          ∷ (
            codes "names",
            (arr (
                (obj ((codes "String", (obj ((codes "str", (string (codes "text"))) ∷ []))) ∷ []))
                ∷ [])),
          )
          ∷ (codes "typemod", (number (codes "-1")))
          ∷ [])),
    )
    ∷ [])

abbrev pub relation_xxx : Json
relation_xxx = obj (
    (codes "inh", (boolean true))
    ∷ (codes "location", (number (codes "27")))
    ∷ (codes "relname", (string (codes "xxx")))
    ∷ (codes "relpersistence", (string (codes "p")))
    ∷ [])

-- The node under "CreateStmt" of
-- create table if not exists xxx (id bigserial primary key, name text not null, …)
abbrev pub create_xxx : Json
create_xxx = obj (
    (codes "if_not_exists", (boolean true))
    ∷ (codes "oncommit", (string (codes "ONCOMMIT_NOOP")))
    ∷ (codes "relation", relation_xxx)
    ∷ (
      codes "tableElts",
      (arr (
          obj ((codes "ColumnDef", id_column) ∷ [])
          ∷ obj ((codes "ColumnDef", name_column) ∷ [])
          ∷ obj ((codes "ColumnDef", tags_column) ∷ [])
          ∷ [])),
    )
    ∷ [])

abbrev pub drop_objects : Items
drop_objects = items_of (
    (obj (
      (
        codes "List",
        (obj (
            (
              codes "items",
              (arr (
                  (obj ((codes "String", (obj ((codes "str", (string (codes "xxx"))) ∷ []))) ∷ []))
                  ∷ [])),
            )
            ∷ [])),
      )
      ∷ []))
    ∷ (obj (
        (
          codes "List",
          (obj (
              (
                codes "items",
                (arr (
                    (obj
                      ((codes "String", (obj ((codes "str", (string (codes "yyy"))) ∷ []))) ∷ []))
                    ∷ [])),
              )
              ∷ [])),
        )
        ∷ []))
    ∷ (obj (
        (
          codes "List",
          (obj (
              (
                codes "items",
                (arr (
                    (obj
                      ((codes "String", (obj ((codes "str", (string (codes "zzz"))) ∷ []))) ∷ []))
                    ∷ [])),
              )
              ∷ [])),
        )
        ∷ []))
    ∷ [])

-- The node under "DropStmt" of drop table xxx, yyy, zzz cascade
abbrev pub drop_xxx : Json
drop_xxx = obj (
    (codes "behavior", (string (codes "DROP_CASCADE")))
    ∷ (codes "objects", array drop_objects)
    ∷ (codes "removeType", (string (codes "OBJECT_TABLE")))
    ∷ [])

abbrev pub role_args : Json
role_args = arr (
    (obj (
      (
        codes "A_Const",
        (obj (
            (codes "location", (number (codes "9")))
            ∷ (
              codes "val",
              (obj
                  ((codes "String", (obj ((codes "str", (string (codes "jim@amzn"))) ∷ []))) ∷ [])),
            )
            ∷ [])),
      )
      ∷ []))
    ∷ [])

-- The node under "VariableSetStmt" of set role 'jim@amzn'
abbrev pub set_role : Json
set_role = obj (
    (codes "args", role_args)
    ∷ (codes "kind", (string (codes "VAR_SET_VALUE")))
    ∷ (codes "name", (string (codes "role")))
    ∷ [])
