-- ===== src/ErrorCodes/Table/First.antt =====
-- The assignments of lines 6 to 127 of framework/error_codes.py.
use functional_tests.Base.{List, [], ◌∷◌}
use functional_tests.ErrorCodes.{Code, assign}

abbrev pub first_codes : List Code
first_codes =
    assign "BAD_VALUE_ERROR" 2 6
    ∷ assign "NO_SUCH_KEY_ERROR" 4 7
    ∷ assign "GRAPH_CONTAINS_CYCLE_ERROR" 5 8
    ∷ assign "UNKNOWN_ERROR" 8 9
    ∷ assign "FAILED_TO_PARSE_ERROR" 9 10
    ∷ assign "UNSUPPORTED_FORMAT_ERROR" 12 11
    ∷ assign "UNAUTHORIZED_ERROR" 13 12
    ∷ assign "TYPE_MISMATCH_ERROR" 14 13
    ∷ assign "OVERFLOW_ERROR" 15 14
    ∷ assign "INVALID_LENGTH_ERROR" 16 15
    ∷ assign "ILLEGAL_OPERATION_ERROR" 20 16
    ∷ assign "ALREADY_INITIALIZED_ERROR" 23 17
    ∷ assign "NAMESPACE_NOT_FOUND_ERROR" 26 18
    ∷ assign "INDEX_NOT_FOUND_ERROR" 27 19
    ∷ assign "PATH_NOT_VIABLE_ERROR" 28 20
    ∷ assign "FILE_RENAME_FAILED_ERROR" 37 21
    ∷ assign "CONFLICTING_UPDATE_OPERATORS_ERROR" 40 22
    ∷ assign "CURSOR_NOT_FOUND_ERROR" 43 23
    ∷ assign "NO_MATCHING_DOCUMENT_ERROR" 47 24
    ∷ assign "NAMESPACE_EXISTS_ERROR" 48 25
    ∷ assign "DOLLAR_PREFIXED_FIELD_NAME_ERROR" 52 26
    ∷ assign "INVALID_BSON_ID_ERROR" 53 27
    ∷ assign "NOT_EXACT_VALUE_FIELD_ERROR" 54 28
    ∷ assign "EMPTY_FIELD_NAME_ERROR" 56 29
    ∷ assign "COMMAND_NOT_FOUND_ERROR" 59 30
    ∷ assign "IMMUTABLE_FIELD_ERROR" 66 31
    ∷ assign "CANNOT_CREATE_INDEX_ERROR" 67 32
    ∷ assign "INDEX_ALREADY_EXISTS_ERROR" 68 33
    ∷ assign "INVALID_OPTIONS_ERROR" 72 34
    ∷ assign "INVALID_NAMESPACE_ERROR" 73 35
    ∷ assign "UNKNOWN_REPL_WRITE_CONCERN_ERROR" 79 36
    ∷ assign "INDEX_OPTIONS_CONFLICT_ERROR" 85 37
    ∷ assign "INDEX_KEY_SPECS_CONFLICT_ERROR" 86 38
    ∷ assign "OPERATION_FAILED_ERROR" 96 39
    ∷ assign "WRITE_CONFLICT_ERROR" 112 40
    ∷ assign "COMMAND_NOT_SUPPORTED_ERROR" 115 41
    ∷ assign "DOCUMENT_VALIDATION_FAILURE_ERROR" 121 42
    ∷ assign "NOT_A_REPLICA_SET_ERROR" 123 43
    ∷ assign "COMMAND_FAILED_ERROR" 125 44
    ∷ assign "CAPPED_POSITION_LOST_ERROR" 136 45
    ∷ assign "INCOMPATIBLE_COLLATION_VERSION_ERROR" 161 46
    ∷ assign "VIEW_DEPTH_LIMIT_ERROR" 165 47
    ∷ assign "COMMAND_NOT_SUPPORTED_ON_VIEW_ERROR" 166 48
    ∷ assign "OPTION_NOT_SUPPORTED_ON_VIEW_ERROR" 167 49
    ∷ assign "UNRECOGNIZED_EXPRESSION_ERROR" 168 50
    ∷ assign "CANNOT_INDEX_PARALLEL_ARRAYS_ERROR" 171 51
    ∷ assign "QUERY_PLAN_KILLED_ERROR" 175 52
    ∷ assign "AMBIGUOUS_INDEX_KEY_PATTERN_ERROR" 181 53
    ∷ assign "VIEW_PIPELINE_TOO_LARGE_ERROR" 195 54
    ∷ assign "INVALID_INDEX_SPEC_OPTION_ERROR" 197 55
    ∷ assign "INVALID_UUID_ERROR" 207 56
    ∷ assign "QUERY_FEATURE_NOT_ALLOWED" 224 57
    ∷ assign "TRANSACTION_TOO_OLD_ERROR" 225 58
    ∷ assign "MAX_NESTED_SUB_PIPELINE_ERROR" 232 59
    ∷ assign "CONVERSION_FAILURE_ERROR" 241 60
    ∷ assign "NO_SUCH_TRANSACTION_ERROR" 251 61
    ∷ assign "INVALID_RESUME_TOKEN_ERROR" 260 62
    ∷ assign "OPERATION_NOT_SUPPORTED_IN_TRANSACTION_ERROR" 263 63
    ∷ assign "CHANGE_STREAM_FATAL_ERROR" 280 64
    ∷ assign "CHANGE_STREAM_HISTORY_LOST_ERROR" 286 65
    ∷ assign "NO_QUERY_EXECUTION_PLANS_ERROR" 291 66
    ∷ assign "QUERY_EXCEEDED_MEMORY_NO_DISK_USE_ERROR" 292 67
    ∷ assign "FEATURE_NOT_SUPPORTED_ERROR" 303 68
    ∷ assign "OBJECT_IS_BUSY_ERROR" 314 69
    ∷ assign "API_VERSION_ERROR" 322 70
    ∷ assign "API_STRICT_ERROR" 323 71
    ∷ assign "CANNOT_CONVERT_INDEX_TO_UNIQUE_ERROR" 359 72
    ∷ assign "COLLECTION_UUID_MISMATCH_ERROR" 361 73
    ∷ assign "USER_WRITES_BLOCKED_ERROR" 371 74
    ∷ assign "QUERYSETTINGS_QUERY_REJECTED_ERROR" 411 75
    ∷ assign "EXPRESSION_NOT_OBJECT_ERROR" 10065 76
    ∷ assign "BSON_OBJECT_TOO_LARGE_ERROR" 10334 77
    ∷ assign "DUPLICATE_KEY_ERROR" 11000 78
    ∷ assign "GEO_2D_OUT_OF_RANGE_ERROR" 13027 79
    ∷ assign "SORT_COMPOUND_KEY_LIMIT_ERROR" 13103 80
    ∷ assign "BSON_FIELD_NOT_BOOL_ERROR" 13111 81
    ∷ assign "MERGE_WHEN_NOT_MATCHED_FAIL_ERROR" 13113 82
    ∷ assign "RANK_FUSION_WEIGHT_TYPE_ERROR" 13118 83
    ∷ assign "INVALID_DB_NAME_ERROR" 13280 84
    ∷ assign "DATABASE_DIFFER_CASE_ERROR" 13297 85
    ∷ assign "GROUP_NON_OBJECT_ERROR" 15947 86
    ∷ assign "BUCKET_OUTPUT_ID_RESERVED_ERROR" 15948 87
    ∷ assign "GROUP_UNKNOWN_OPERATOR_ERROR" 15952 88
    ∷ assign "GROUP_MISSING_ID_ERROR" 15955 89
    ∷ assign "LIMIT_NOT_POSITIVE_ERROR" 15958 90
    ∷ assign "MATCH_FILTER_NOT_OBJECT_ERROR" 15959 91
    ∷ assign "PROJECT_SPEC_NOT_OBJECT_ERROR" 15969 92
    ∷ assign "SORT_NON_OBJECT_SPEC_ERROR" 15973 93
    ∷ assign "SORT_ORDER_TYPE_ERROR" 15974 94
    ∷ assign "SORT_ORDER_RANGE_ERROR" 15975 95
    ∷ assign "SORT_EMPTY_SPEC_ERROR" 15976 96
    ∷ assign "UNWIND_SPEC_TYPE_ERROR" 15981 97
    ∷ assign "EXPRESSION_OBJECT_MULTIPLE_FIELDS_ERROR" 15983 98
    ∷ assign "EXPRESSION_ARITY_MISMATCH_ERROR" 15994 99
    ∷ assign "FIELD_PATH_EMPTY_COMPONENT_ERROR" 15998 100
    ∷ assign "INVALID_TYPE_ERROR" 16004 101
    ∷ assign "TYPE_MISMATCH_DATE_ERROR" 16006 102
    ∷ assign "BSON_TO_STRING_CONVERSION_ERROR" 16007 103
    ∷ assign "EXPRESSION_TYPE_MISMATCH_ERROR" 16020 104
    ∷ assign "SUBSTR_START_TYPE_ERROR" 16034 105
    ∷ assign "SUBSTR_LENGTH_TYPE_ERROR" 16035 106
    ∷ assign "FIELD_PATH_DOLLAR_PREFIX_ERROR" 16410 107
    ∷ assign "FIELD_PATH_NULL_BYTE_ERROR" 16411 108
    ∷ assign "FIELD_PATH_DOT_ERROR" 16412 109
    ∷ assign "EXPRESSION_FIELD_PATH_NULL_BYTE_ERROR" 16419 110
    ∷ assign "POINT_NOT_IN_INTERVAL_ERROR" 16433 111
    ∷ assign "STRING_SIZE_LIMIT_ERROR" 16493 112
    ∷ assign "ADD_TYPE_MISMATCH_ERROR" 16554 113
    ∷ assign "GEO_NEAR_DISTANCE_FIELD_TYPE_ERROR" 16606 114
    ∷ assign "GEO_NEAR_INCLUDE_LOCS_TYPE_ERROR" 16607 115
    ∷ assign "DIVIDE_BY_ZERO_ERROR" 16608 116
    ∷ assign "MODULO_ZERO_REMAINDER_ERROR" 16610 117
    ∷ assign "MODULO_NON_NUMERIC_ERROR" 16611 118
    ∷ assign "MORE_THAN_ONE_DATE_ERROR" 16612 119
    ∷ assign "CONCAT_TYPE_ERROR" 16702 120
    ∷ assign "CANT_EXTRACT_GEO_KEYS_ERROR" 16755 121
    ∷ assign "HASHED_UNIQUE_NOT_SUPPORTED_ERROR" 16764 122
    ∷ assign "EMPTY_VARIABLE_NAME_ERROR" 16867 123
    ∷ assign "INVALID_DOLLAR_FIELD_PATH" 16872 124
    ∷ assign "LET_NON_OBJECT_ARGUMENT_ERROR" 16874 125
    ∷ assign "LET_UNKNOWN_FIELD_ERROR" 16875 126
    ∷ assign "LET_MISSING_VARS_ERROR" 16876 127
    ∷ []
